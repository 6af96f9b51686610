-- ===== src/Restore/Dump.antt =====
-- src/restore/restoreSqlDump.ts: the restore of a dump on a connection.
pub mod State
pub mod Finalize
pub mod Statements
pub mod Run
pub mod Cleanup
pub mod Sent
pub mod Sends
pub mod Undone
pub mod Counts
pub mod Success
pub mod Opened
pub mod Closing
pub mod Tests
