-- ===== src/Gateway.antt =====
-- components/mcp-gateway: the OAuth server, the session store, the Athenz token manager, the client
-- of the registry, the forwarding routes and the status for the hub.
pub mod Platform
pub mod OauthStore
pub mod Sessions
pub mod Keycloak
pub mod Oauth
pub mod Athenz
pub mod Registry
pub mod Protected
pub mod Internal
mod Tests
