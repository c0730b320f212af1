-- ===== src/Flatten.antt =====
-- The flattening of an idle frame (drmdisplaycompositor.cpp): after a number of vertical blanks
-- without a new frame, the frame on the screen is written back to one buffer, which then is shown
-- alone.
pub mod State
pub mod Serial
pub mod OnDisplay
pub mod Concurrent
pub mod Idle
pub mod Planes
pub mod Newer
pub mod Countdown
