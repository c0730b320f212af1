-- ===== src/Device.antt =====
-- drmdevice.h, drmdevice.cpp, drmencoder.h and drmencoder.cpp: one DRM device and its objects.
pub mod State
pub mod Pipe
pub mod Objects
pub mod Init
pub mod Binding
pub mod Unattached
pub mod Primary
