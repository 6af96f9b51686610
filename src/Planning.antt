-- ===== src/Planning.antt =====
-- src/version, src/selection and src/archive: what a server can do, what is dumped, and in which order.
pub mod Version
pub mod Selection
pub mod Sections
pub mod Archive
