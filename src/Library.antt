-- ===== src/Library.antt =====
-- shared_lib/libsessionfs.c: the library that takes the place of `open` and `close` in a process.
pub mod Process
pub mod Paths
pub mod Close
pub mod Load
pub mod Open
pub mod Names
pub mod Steps
pub mod Closes
pub mod Opens
pub mod Switches
pub mod Attached
