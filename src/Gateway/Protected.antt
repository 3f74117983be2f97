-- ===== src/Gateway/Protected.antt =====
-- components/mcp-gateway/src/routes/protected.ts: the session behind a request, the scope that it
-- needs, and what is forwarded to the MCP server.
pub mod Scopes
pub mod Headers
pub mod Forwarding
pub mod Guarded
pub mod Outcomes
