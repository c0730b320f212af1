-- ===== src/Display.antt =====
-- drmhwctwo.h and drmhwctwo.cpp: the HWC2 device's displays and their layers.
pub mod Layer
pub mod State
pub mod Zmap
pub mod Compose
pub mod Validate
pub mod Counts
pub mod Fit
pub mod Changes
pub mod Query
pub mod Switch
pub mod Present
pub mod Handles
pub mod Kept
pub mod Calls
pub mod Shown
pub mod Whole
pub mod Order
pub mod Entries
pub mod Client
pub mod Fences
pub mod Taken
pub mod Configs
pub mod Owners
pub mod Pools
pub mod Init
