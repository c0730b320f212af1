-- ===== src/Compositor.antt =====
-- drmdisplaycompositor.h and drmdisplaycompositor.cpp: the compositor of one display.
-- A method takes the compositor's state and returns it anew; `none` is a read through a null
-- pointer. The functions run under the compositor's lock.
pub mod State
pub mod Frame
pub mod Apply
pub mod Accepted
pub mod Testing
pub mod Lost
pub mod Stale
pub mod Start
pub mod Report
