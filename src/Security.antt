-- ===== src/Security.antt =====
-- src/security: the escaping of identifiers, strings and bytes.
pub mod Literals
pub mod Identifiers
