-- ===== src/Runtime.antt =====
-- The runtime layer (crates/launcher-runtime).
pub mod Manager
