-- ===== src/Examples.antt =====
-- The theorems applied at concrete inputs.
pub mod Data
pub mod Planes
pub mod Commits
pub mod Screens
pub mod Objects
pub mod Workers
pub mod Flattening
pub mod Frames
pub mod Card
pub mod Calls
pub mod Whole
pub mod Buffers
pub mod Listening
