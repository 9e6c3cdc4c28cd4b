-- ===== src/Device.antt =====
-- kmodule/device_sessionfs.c: the character device.
pub mod State
pub mod Path
pub mod Directory
pub mod Ioctl
pub mod Flags
pub mod Balance
pub mod Shutdown
pub mod Setup
pub mod Loading
