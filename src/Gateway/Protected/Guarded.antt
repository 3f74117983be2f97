-- ===== src/Gateway/Protected/Guarded.antt =====
-- What an answer from an MCP server says about its request (routes/protected.ts).
use id_jag_the_hard_way.Base.{
  ℕ, true, Option, none, some, [], ◌∷◌, ◌≡◌, ◌≢◌, refl, subst, Result, ok, err, arith, inl, inr,
  >>=-eq-ok, Bool-cases, Bool, false, is_empty, Member, includes_iff, ok-injective,
}
use id_jag_the_hard_way.Base.Text.{Text, text_eq, lit}
use id_jag_the_hard_way.Base.Dict.{Dict, get}
use id_jag_the_hard_way.Base.Json.{Value, str}
use id_jag_the_hard_way.Base.Options.{truthy}
use id_jag_the_hard_way.Gateway.Platform.{Platform}
use id_jag_the_hard_way.Gateway.Athenz.Errors.{AthenzError}
use id_jag_the_hard_way.Gateway.Sessions
use id_jag_the_hard_way.Gateway.Sessions.{GatewaySession, SessionStore}
use id_jag_the_hard_way.Gateway.Registry.{RegistryError, ResolvedMcpRoute, none_permission}
use id_jag_the_hard_way.Gateway.Protected.Scopes.{
  McpRequest, CallError, method_of, public_mcp_methods, is_public_method, message,
  is_public_mcp_discovery_request, access_scope_for_request,
}
use id_jag_the_hard_way.Gateway.Protected.Headers.{authorization_header, bearer}
use id_jag_the_hard_way.Gateway.Protected.Headers.Passed.{forwarded_request_headers_lem}
use id_jag_the_hard_way.Gateway.Protected.Forwarding.{
  Failure, Services, Forwarded, UpstreamResponse, proxied, bearer_token, or_registry, or_athenz,
  or_upstream, needed_scope, session_with, require_session, token_for, downstream_for, forwarded,
  proxy, settle, handle_session, handle_valid, handle, is_valid_server_id,
}

-- How a tool call came by its scope: it is the tool's own, which is not empty; or the tool has none,
-- or an empty one, and the registry says that the route's does; or the registry configures no tools.
pub data IsAllowed (route : ResolvedMcpRoute) (fallback tool : Text) : Text → Type 0 where
  by_tool :
      (scopes : Dict Text) (scope : Text)
      → route.tool_scopes ≡ some scopes
      → get scopes tool ≡ some scope
      → scope ≢ []
      → IsAllowed route fallback tool scope
  by_default :
      (scopes : Dict Text)
      → route.tool_scopes ≡ some scopes
      → truthy (get scopes tool) ≡ none
      → route.default_tool_permission ≡ some none_permission
      → IsAllowed route fallback tool (elim route.access_scope [ none ↦ fallback | some own ↦ own ])
  without_tools :
      route.tool_scopes ≡ none
      → IsAllowed route fallback tool (elim route.access_scope [ none ↦ fallback | some own ↦ own ])

-- The scope that a request needs: none for the methods that are open to all, otherwise that of
-- `access_scope_for_request`, where an empty scope is none.
pub data IsNeeded (route : ResolvedMcpRoute) (fallback : Text) (r : McpRequest)
    : Option Text → Type 0 where
  open_to_all :
      (method : Text)
      → method_of (message r) ≡ some (str method)
      → Member method
          (lit "initialize" ∷ lit "notifications/initialized" ∷ lit "ping" ∷ lit "tools/list" ∷ [])
      → IsNeeded route fallback r none
  protected :
      (scope : Text)
      → access_scope_for_request r route fallback ≡ ok scope
      → is_empty scope ≡ false
      → IsNeeded route fallback r (some scope)
  empty_scope : access_scope_for_request r route fallback ≡ ok [] → IsNeeded route fallback r none

-- The access token for a scope, which Athenz issued; there is none exactly where no scope is needed.
pub data IsGranted (svc : Services) (session : GatewaySession) (audience : Option Text)
    : (scope token : Option Text) → Type 0 where
  unneeded : IsGranted svc session audience none none
  issued :
      {scope token : Text}
      → svc.get_access_token session scope audience ≡ ok token
      → IsGranted svc session audience (some scope) (some token)

public_method :
    (o : Option Value)
    → is_public_method o ≡ true
    → (name : Text) × (o ≡ some (str name)) × Member name public_mcp_methods
public_method (some (str s)) h = (s, refl, (includes_iff public_mcp_methods s).0 h)
public_method o h = absurd (cc h)

needed_scope_sound :
    (route : ResolvedMcpRoute) (fallback : Text) (r : McpRequest) (public : Bool)
    (found : Result CallError Text) {scope : Option Text}
    → is_public_mcp_discovery_request r ≡ public
    → access_scope_for_request r route fallback ≡ found
    → needed_scope public found ≡ ok scope
    → IsNeeded route fallback r scope
unfolding needed_scope is_public_mcp_discovery_request
needed_scope_sound route fallback r true found e f h =
    let (name, m, w) = public_method (method_of (message r)) e in
    subst (IsNeeded route fallback r) (ok-injective h) (open_to_all name m w)
needed_scope_sound route fallback r false (ok []) e f h =
    subst (IsNeeded route fallback r) (ok-injective h) (empty_scope f)
needed_scope_sound route fallback r false (ok (c ∷ s)) e f h =
    subst (IsNeeded route fallback r) (ok-injective h) (protected (c ∷ s) f refl)
needed_scope_sound route fallback r false (err x) e f h = absurd (cc h)

module _ (p : Platform) (svc : Services) (fallback : Text) where
  or_athenz-ok : {A : Type 0} (r : Result AthenzError A) {a : A} → or_athenz r ≡ ok a → r ≡ ok a
  or_athenz-ok (ok x) h = cc
  or_athenz-ok (err e) h = cc

  token_for_sound :
      (session : GatewaySession) (scope audience : Option Text) {token : Option Text}
      → token_for p svc fallback session scope audience ≡ ok token
      → IsGranted svc session audience scope token
  unfolding token_for
  token_for_sound session none audience h =
      subst (IsGranted svc session audience none) (ok-injective h) unneeded
  token_for_sound session (some scope) audience h =
      let (token, e, h) = >>=-eq-ok (or_athenz (svc.get_access_token session scope audience)) _ h in
      subst (IsGranted svc session audience (some scope)) (ok-injective h)
        (issued (or_athenz-ok _ e))

  -- Why a request was sent on: the route is registered, and the request is public or carries the
  -- access token for the scope that it needs; no other authorization is sent.
  pub record IsAuthorized (session : GatewaySession) (server_id : Text) (r : McpRequest)
      (sent : Forwarded) : Type 0 where
    pub route : ResolvedMcpRoute
    pub registered : svc.resolve_route server_id ≡ ok route
    pub scope : Option Text
    pub needed : IsNeeded route fallback r scope
    pub token : Option Text
    pub granted : IsGranted svc session route.access_audience scope token
    pub authorization : get sent.headers authorization_header ≡ bearer (truthy token)

  or_registry-ok :
      {A : Type 0} (r : Result RegistryError A) {a : A} → or_registry r ≡ ok a → r ≡ ok a
  or_registry-ok (ok x) h = cc
  or_registry-ok (err e) h = cc

  or_upstream-ok : {A : Type 0} (o : Option A) {a : A} → or_upstream o ≡ ok a → o ≡ some a
  or_upstream-ok (some x) h = cc
  or_upstream-ok none h = cc

  proxy_sound :
      (session : GatewaySession) (server_id : Text) (r : McpRequest) {response : UpstreamResponse}
      → proxy p svc fallback session server_id r ≡ ok response
      → (sent : Forwarded) × (svc.fetch sent ≡ some response)
        × IsAuthorized session server_id r sent
  unfolding proxy forwarded
  proxy_sound session server_id r h =
      let (route, resolved, h1) = >>=-eq-ok (or_registry (svc.resolve_route server_id)) _ h in
      let (scope, needed, h2) =
        >>=-eq-ok
          (needed_scope (is_public_mcp_discovery_request r)
            (access_scope_for_request r route fallback))
          _ h1 in
      let (token, granted, h3) =
        >>=-eq-ok (token_for p svc fallback session scope route.access_audience) _ h2 in
      (
        forwarded p svc fallback r route token scope,
        or_upstream-ok _ h3,
        record {
          route = route;
          registered = or_registry-ok _ resolved;
          scope = scope;
          needed = needed_scope_sound route fallback r _ _ refl refl needed;
          token = token;
          granted = token_for_sound session scope route.access_audience granted;
          authorization =
              (forwarded_request_headers_lem r token
                (downstream_for p svc fallback r route scope)).0;
        },
      )

  settle-proxied :
      (server_id : Text) (r : McpRequest) (result : Result Failure UpstreamResponse)
      (s : SessionStore) {id : Text} {status : ℕ} {headers : Dict Text}
      → (settle p svc fallback server_id r result s).1 ≡ proxied id status headers
      → (response : UpstreamResponse) × (result ≡ ok response)
  unfolding settle
  settle-proxied server_id r (ok response) s h = (response, refl)
  settle-proxied server_id r (err failure) s h = absurd (ground arith)

  session_with-some :
      (ms : ℕ) (token : Option Text) (s : SessionStore) {session : GatewaySession} (t : Text)
      → token ≡ truthy (some t)
      → (session_with p ms token s).1 ≡ some session
      → (Sessions.get p ms t s).1 ≡ some session
  session_with-some ms none s t e h = absurd (cc h)
  session_with-some ms (some token) s [] e h = absurd (cc e)
  session_with-some ms (some token) s {session} (c ∷ t) e h =
      subst (λ k. (Sessions.get p ms k s).1 ≡ some session) (cc e) h

  -- The session and the authorization behind an answer that comes from an MCP server.
  pub record IsAnswered (ms : ℕ) (server_id : Text) (r : McpRequest) (s : SessionStore)
      : Type 0 where
    pub valid : is_valid_server_id server_id ≡ true
    pub session : GatewaySession
    pub found : (Sessions.get p ms (bearer_token r) s).1 ≡ some session
    pub sent : Forwarded
    pub response : UpstreamResponse
    pub fetched : svc.fetch sent ≡ some response
    pub authorized : IsAuthorized session server_id r sent

  handle_session-proxied :
      (server_id : Text) (r : McpRequest) (found : Option GatewaySession) (s : SessionStore)
      {id : Text} {status : ℕ} {headers : Dict Text}
      → (handle_session p svc fallback server_id r found s).1 ≡ proxied id status headers
      → (session : GatewaySession) × (found ≡ some session)
        × ((response : UpstreamResponse) × (proxy p svc fallback session server_id r ≡ ok response))
  unfolding handle_session
  handle_session-proxied server_id r none s h = absurd (cc h)
  handle_session-proxied server_id r (some session) s h =
      (session, refl, settle-proxied server_id r _ s h)

  -- An MCP server is reached only with a session that the caller's bearer token finds. The
  -- route of the server is registered, and the request carries the access token that Athenz
  -- issued to this session for the scope that the request needs; only a request of one of the
  -- four methods that are open to all, or one whose scope is empty, goes without one, and a
  -- request never carries the caller's own authorization.
  pub handle_sound :
      (ms : ℕ) (server_id : Text) (r : McpRequest) (s : SessionStore) (id : Text) (status : ℕ)
      (headers : Dict Text)
      → (handle p svc fallback ms server_id r s).1 ≡ proxied id status headers
      → IsAnswered ms server_id r s
  unfolding handle handle_valid require_session
  handle_sound ms server_id r s id status headers h =
      elim (Bool-cases (is_valid_server_id server_id)) [
        | inr bad ↦ absurd (ground arith)
        | inl good ↦
            let (session, found, (response, answered)) =
              handle_session-proxied server_id r _ _ (rw good at h) in
            let (sent, fetched, authorized) = proxy_sound session server_id r answered in
            record {
              valid = good;
              session = session;
              found =
                  session_with-some ms (truthy (some (bearer_token r))) s (bearer_token r) refl
                    found;
              sent = sent;
              response = response;
              fetched = fetched;
              authorized = authorized;
            }
      ]
