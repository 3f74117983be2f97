-- ===== src/Gateway/Athenz.antt =====
-- components/mcp-gateway/src/services/athenz.ts: scopes, the grants read from Athenz tokens, and
-- the cache of ID-JAGs and access tokens.
pub mod Scopes
pub mod Matching
pub mod Errors
pub mod Grants
pub mod Claimed
pub mod Claims
pub mod Caches
pub mod Manager
