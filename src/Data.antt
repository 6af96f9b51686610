-- ===== src/Data.antt =====
-- src/data: how the rows of a table become `INSERT` statements.
pub mod ChunkBuilder
pub mod ValueRenderer
pub mod Columns
pub mod InsertExport
