-- ===== src/Gateway/Protected/Forwarding.antt =====
-- The handlers of routes/protected.ts. What the hub, Athenz and the MCP server answer is a
-- parameter: the route of a server, the access token that `getAccessToken` settles with, and the
-- answer to the request that is forwarded. A handler is one step over its awaits: what other
-- requests do to the sessions between them is left out.
use id_jag_the_hard_way.Base.{
  ℕ, Bool, true, false, ◌&&◌, ◌||◌, Option, none, some, [], ◌∷◌, if◌then◌else◌, leb, drop, length,
  Result, ok, err, ◌>>=◌, ◌==◌,
}
use id_jag_the_hard_way.Base.Text.{Text, text_eq, lit, starts_with}
use id_jag_the_hard_way.Base.Dict.{Dict, get}
use id_jag_the_hard_way.Base.Json.{Value, str}
use id_jag_the_hard_way.Base.Options.{truthy}
use id_jag_the_hard_way.Gateway.Platform.{Platform}
use id_jag_the_hard_way.Gateway.Sessions
use id_jag_the_hard_way.Gateway.Sessions.{GatewaySession, SessionStore}
use id_jag_the_hard_way.Gateway.Registry.{
  RegistryError, not_found, ResolvedMcpRoute, is_alnum, is_name_char,
}
use id_jag_the_hard_way.Gateway.Athenz.Errors.{
  AthenzError, reauthentication_required, insufficient_scope,
}
use id_jag_the_hard_way.Gateway.Protected.Scopes.{
  HeaderValue, single, McpRequest, CallError, tool_scope_not_configured,
  is_public_mcp_discovery_request, access_scope_for_request, downstream_scope_for_request,
}
use id_jag_the_hard_way.Gateway.Protected.Headers.{
  forwarded_request_headers, returned_headers, authorization_header,
}

-- What is sent to the MCP server at the proxy URL of its route.
pub record Forwarded : Type 0 where
  pub proxy_url : Text
  pub method : Text
  pub headers : Dict Text
  pub body : Option Text

pub record UpstreamResponse : Type 0 where
  pub status : ℕ
  pub headers : Dict Text

-- Why a request is not answered by its MCP server.
pub data Failure : Type 0 where
  registry : RegistryError → Failure
  call : CallError → Failure
  athenz : AthenzError → Failure
  -- the MCP server could not be reached in time
  upstream : Failure

-- A challenge names the metadata of a server, or of the gateway.
pub data McpReply : Type 0 where
  json_error : (status : ℕ) (error : Text) → McpReply
  challenge : (error : Text) (server_id : Option Text) → McpReply
  session_info : (subject username : Text) (expires_at : ℕ) → McpReply
  proxied : (server_id : Text) (status : ℕ) (headers : Dict Text) → McpReply

pub record Services : Type 0 where
  pub resolve_route : (server_id : Text) → Result RegistryError ResolvedMcpRoute
  pub get_access_token :
      GatewaySession → (scope : Text) → (audience : Option Text) → Result AthenzError Text
  pub fetch : Forwarded → Option UpstreamResponse
  -- `JSON.stringify`
  pub stringify : Value → Text

-- Letters, digits, `.`, `_` and `-`, where the last is a letter or a digit.
unfoldable pub ends_server_id : Text → Bool
ends_server_id [] = true
ends_server_id (c ∷ []) = is_alnum c
ends_server_id (c ∷ d ∷ s) = is_name_char c && ends_server_id (d ∷ s)

-- `/^[a-z0-9](?:[a-z0-9._-]{0,251}[a-z0-9])?$/i`
unfoldable pub is_valid_server_id : Text → Bool
unfolding ends_server_id
is_valid_server_id [] = false
is_valid_server_id (c ∷ s) = is_alnum c && (leb (length s) 252 && ends_server_id s)

abbrev pub bearer_of : Option HeaderValue → Text
bearer_of (some (single s)) = if starts_with s (lit "Bearer ") then drop 7 s else []
bearer_of _ = []

unfoldable pub bearer_token : McpRequest → Text
bearer_token r = bearer_of (get r.headers authorization_header)

abbrev pub body_text : (stringify : Value → Text) → Value → Text
body_text stringify (str s) = s
body_text stringify v = stringify v

unfoldable pub request_body : (stringify : Value → Text) → McpRequest → Option Text
request_body stringify r =
    if r.method == lit "GET" || r.method == lit "HEAD"
    then none
    else elim r.body [ none ↦ none | some v ↦ some (body_text stringify v) ]

abbrev pub or_call : {A : Type 0} → Result CallError A → Result Failure A
or_call (ok a) = ok a
or_call (err e) = err (call e)

abbrev pub or_athenz : {A : Type 0} → Result AthenzError A → Result Failure A
or_athenz (ok a) = ok a
or_athenz (err e) = err (athenz e)

abbrev pub or_registry : {A : Type 0} → Result RegistryError A → Result Failure A
or_registry (ok a) = ok a
or_registry (err e) = err (registry e)

abbrev pub or_upstream : {A : Type 0} → Option A → Result Failure A
or_upstream (some a) = ok a
or_upstream none = err upstream

-- The scope that a request needs: none if it is public.
unfoldable pub needed_scope : (public : Bool) → Result CallError Text → Result Failure (Option Text)
needed_scope true scope = ok none
needed_scope false (ok scope) = ok (truthy (some scope))
needed_scope false (err e) = err (call e)

-- The status and the code of a failure that is no reauthentication.
unfoldable pub failure_status : Failure → ℕ × Text
failure_status (registry (not_found server_id)) = (404, lit "mcp_server_not_found")
failure_status (call (tool_scope_not_configured tool)) = (403, lit "tool_scope_not_configured")
failure_status (call e) = (400, lit "invalid_tool_call")
failure_status (athenz (insufficient_scope requested granted)) = (403, lit "insufficient_scope")
failure_status _ = (502, lit "mcp_gateway_forwarding_failed")

-- `error instanceof ReauthenticationRequiredError`
unfoldable pub is_reauthentication : Failure → Bool
is_reauthentication (athenz reauthentication_required) = true
is_reauthentication _ = false

module _ (p : Platform) where
  abbrev pub session_with :
      (ms : ℕ) → Option Text → SessionStore → SessionStore × Option GatewaySession
  session_with ms none s = (s, none)
  session_with ms (some token) s = Sessions.get p ms token s

  -- `requireSession`, less the challenge that it answers
  unfoldable pub require_session :
      (ms : ℕ) → McpRequest → SessionStore → SessionStore × Option GatewaySession
  require_session ms r s = session_with ms (truthy (some (bearer_token r))) s

  abbrev pub session_reply : Option GatewaySession → McpReply
  session_reply none = challenge (lit "unauthorized") none
  session_reply (some session) = session_info session.subject session.username session.expires_at

  -- GET /session
  unfoldable pub session_route : (ms : ℕ) → McpRequest → SessionStore → SessionStore × McpReply
  unfolding require_session
  session_route ms r s = let (s', session) = require_session ms r s in (s', session_reply session)

  module _ (svc : Services) (fallback : Text) where
    unfoldable pub token_for :
        GatewaySession → Option Text → (audience : Option Text) → Result Failure (Option Text)
    token_for session none audience = ok none
    token_for session (some scope) audience =
        or_athenz (svc.get_access_token session scope audience) >>= λ t. ok (some t)

    abbrev pub downstream_for : McpRequest → ResolvedMcpRoute → Option Text → Option Text
    downstream_for r route none = none
    downstream_for r route (some scope) = downstream_scope_for_request r route scope fallback

    unfoldable pub forwarded :
        McpRequest → ResolvedMcpRoute → (token scope : Option Text) → Forwarded
    unfolding forwarded_request_headers
    forwarded r route token scope = record {
      proxy_url = route.proxy_url;
      method = r.method;
      headers = forwarded_request_headers r token (downstream_for r route scope);
      body = request_body svc.stringify r;
    }

    -- The body of the `try`.
    unfoldable pub proxy :
        GatewaySession → (server_id : Text) → McpRequest → Result Failure UpstreamResponse
    unfolding token_for forwarded needed_scope
    proxy session server_id r = do
      route ← or_registry (svc.resolve_route server_id)
      scope ←
          needed_scope (is_public_mcp_discovery_request r)
            (access_scope_for_request r route fallback)
      token ← token_for session scope route.access_audience
      or_upstream (svc.fetch (forwarded r route token scope))

    abbrev pub signed_out : McpRequest → SessionStore → SessionStore
    signed_out r s = elim (truthy (some (bearer_token r))) [
      | none ↦ s
      | some token ↦ (Sessions.delete p token s).0
    ]

    -- The `catch`: a spent identity token ends the session.
    unfoldable pub settle :
        (server_id : Text)
        → McpRequest
        → Result Failure UpstreamResponse
        → SessionStore
        → SessionStore × McpReply
    settle server_id r (ok response) s =
        (s, proxied server_id response.status (returned_headers response.headers))
    settle server_id r (err failure) s =
        if is_reauthentication failure
        then (signed_out r s, challenge (lit "reauth_required") (some server_id))
        else (s, json_error (failure_status failure).0 (failure_status failure).1)

    unfoldable pub handle_session :
        (server_id : Text)
        → McpRequest
        → Option GatewaySession
        → SessionStore
        → SessionStore × McpReply
    unfolding settle proxy
    handle_session server_id r none s = (s, challenge (lit "unauthorized") (some server_id))
    handle_session server_id r (some session) s = settle server_id r (proxy session server_id r) s

    unfoldable pub handle_valid :
        (ms : ℕ) (server_id : Text) → McpRequest → SessionStore → SessionStore × McpReply
    unfolding handle_session require_session
    handle_valid ms server_id r s =
        let (s', session) = require_session ms r s in handle_session server_id r session s'

    -- /mcp/:serverId
    unfoldable pub handle :
        (ms : ℕ) (server_id : Text) → McpRequest → SessionStore → SessionStore × McpReply
    unfolding handle_valid
    handle ms server_id r s =
        if is_valid_server_id server_id
        then handle_valid ms server_id r s
        else (s, json_error 400 (lit "invalid_server_id"))
