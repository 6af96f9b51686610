-- ===== src/Text.antt =====
-- Text as JavaScript and Node treat it, over bytes: UTF-8 and white space. These are functions of the
-- language and its runtime that the source calls, so no source line of the repository is modelled here.
pub mod Utf8
pub mod Blank
pub mod Letters
pub mod Regex
