-- ===== src/Restore/Parser.antt =====
-- src/restore/statementParser.ts: the class `SqlStatementParser` and the functions over it.
pub mod State
pub mod SqlMode
pub mod Banner
pub mod Command
pub mod Step
pub mod Scan
pub mod Invariant
pub mod Chunks
mod Tests
