-- ===== src/Hwc.antt =====
-- DrmHwcTwo (drmhwctwo.h and drmhwctwo.cpp): the device that SurfaceFlinger opens, the table of its
-- functions, and its calls on displays and layers.
pub mod Function
pub mod Calls
pub mod State
pub mod Start
pub mod Root
pub mod Sequence
pub mod Fences
pub mod Kept
pub mod Fitted
pub mod Whole
pub mod Handles
pub mod Missing
pub mod Opened
pub mod Table
