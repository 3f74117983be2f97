-- ===== src/Gateway/Oauth.antt =====
-- components/mcp-gateway/src/routes/oauth.ts: the handlers of the OAuth server, each from the
-- state to the next state and the reply. Random tokens and clock readings are arguments.
pub mod Request
pub mod Login
pub mod Grant
pub mod Token
pub mod System
pub mod Soundness
