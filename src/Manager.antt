-- ===== src/Manager.antt =====
-- kmodule/session_manager.c: sessions and their incarnations.
pub mod Files
pub mod Search
pub mod Open
pub mod Close
pub mod Clean
pub mod Copy
pub mod CopyEnds
pub mod Truncation
pub mod Find
pub mod Nameless
pub mod Fresh
pub mod First
pub mod Tally
pub mod Tidy
pub mod CleanEnds
pub mod Settle
pub mod Closed
pub mod Flush
pub mod Join
pub mod Reopen
