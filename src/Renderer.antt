-- ===== src/Renderer.antt =====
-- src/renderer.
pub mod Definer
