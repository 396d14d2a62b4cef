-- ===== src/Mcp.antt =====
-- The MCP adapter (crates/launcher-mcp).
pub mod Session
