-- ===== src/Restore.antt =====
-- src/restore: the statement parser, the rewriting of binary literals, and the restore of a dump.
pub mod BinaryLiterals
pub mod Parser
pub mod Session
pub mod Dump
