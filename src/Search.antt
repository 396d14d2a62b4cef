-- ===== src/Search.antt =====
-- The search side of the launcher: the query cache and the provider fan-out.
pub mod Cache
