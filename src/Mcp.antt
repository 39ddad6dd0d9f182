-- ===== src/Mcp.antt =====
-- The MCP bridge (frameworks/mcp-bridge/src/cobalto/mcp).
pub mod Adapter
pub mod Breaker
pub mod Dump
pub mod Handlers
pub mod Pool
pub mod Protocol
pub mod Prompts
pub mod RateLimit
pub mod Resources
pub mod Server
pub mod Source
mod Tests
pub mod Tools
