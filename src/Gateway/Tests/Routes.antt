-- ===== src/Gateway/Tests/Routes.antt =====
-- The theorems on mcpRegistry.ts, protected.ts and internal.ts at one server and one request.
use id_jag_the_hard_way.Base.{Member, none, some, ◌≡◌, refl, [], ◌∷◌, Option, ok, err}
use id_jag_the_hard_way.Base.Text.{
  Text, lit, text_beq, text_eq, trim, words, split_spaces, unique, sort, join, nonempty, index_of,
  starts_with,
}
use id_jag_the_hard_way.Base.Dict.{get, set}
use id_jag_the_hard_way.Base.Json.{obj, Items, nil, cons, Fields, end, field, property}
use id_jag_the_hard_way.Gateway.Sessions
use id_jag_the_hard_way.Gateway.Registry.{
  ProxyUrl, ResolvedMcpRoute, routes_from, resolve, is_audience, configured_text,
  first_scope_domain,
}
use id_jag_the_hard_way.Gateway.Registry.Routed.{IsRouted, resolve_sound}
use id_jag_the_hard_way.Gateway.Protected.Scopes.{
  single, McpRequest, message, method_of, tool_name, access_scope_for_request,
  is_public_mcp_discovery_request,
}
use id_jag_the_hard_way.Gateway.Protected.Headers.{
  forwarded_request_headers, authorization_header, downstream_header, returned_headers,
}
use id_jag_the_hard_way.Gateway.Protected.Headers.Passed.{
  stay_behind, forwarded_request_headers_lem,
}
use id_jag_the_hard_way.Gateway.Protected.Forwarding.{
  Services, handle, challenge, require_session, proxy, bearer_token, is_valid_server_id,
}
use id_jag_the_hard_way.Gateway.Athenz.Errors.{reauthentication_required}
use id_jag_the_hard_way.Gateway.Protected.Guarded.{IsAnswered, handle_sound}
use id_jag_the_hard_way.Gateway.Protected.Outcomes.{handle_reauthentication}
use id_jag_the_hard_way.Gateway.Athenz.Manager.{Caches}
use id_jag_the_hard_way.Gateway.Tests.{platform, session, text_field}

abbrev proxy_url : ProxyUrl
proxy_url = record { protocol = lit "http:"; text = lit "http://p/" }

abbrev parse : Text → Option ProxyUrl
parse s = some proxy_url

abbrev server : Fields
server = text_field (lit "routeId") (lit "s") (
    text_field (lit "proxyUrl") (lit "http://p") (
      text_field (lit "accessScope") (lit "a:role.x")
        (field (lit "toolScopes") (obj (text_field (lit "t") (lit "a:role.y") end)) end)))

abbrev servers : Items
servers = cons (obj server) nil

abbrev route : ResolvedMcpRoute
route = record {
  proxy_url = lit "http://p/";
  access_audience = some (lit "a");
  access_scope = some (lit "a:role.x");
  default_tool_permission = none;
  tool_scopes = some ((lit "t", lit "a:role.y") ∷ []);
}

resolve_sound_example : IsRouted parse route
unfolding routes_from resolve property text_beq set get configured_text first_scope_domain words
    split_spaces nonempty trim index_of sort unique join is_audience
resolve_sound_example =
    resolve_sound parse servers ((lit "s", route) ∷ []) (lit "s") route refl refl

abbrev call : Fields
call =
    text_field (lit "method") (lit "tools/call")
      (field (lit "params") (obj (text_field (lit "name") (lit "t") end)) end)

abbrev request : McpRequest
request = record {
  method = lit "POST";
  body = some (obj call);
  headers = (lit "authorization", single (lit "Bearer b")) ∷ [];
}

forwarded_request_headers_lem_example :
    (get (forwarded_request_headers request (some (lit "q")) none) authorization_header
      ≡ some (lit "Bearer q"))
    × (get (forwarded_request_headers request (some (lit "q")) none) downstream_header ≡ none)
    × ((name : Text)
        → Member name stay_behind
        → get (forwarded_request_headers request (some (lit "q")) none) name ≡ none)
forwarded_request_headers_lem_example = forwarded_request_headers_lem request (some (lit "q")) none

abbrev services : Services
services = record {
  resolve_route = λ id. ok route;
  get_access_token = λ s scope audience. ok (lit "q");
  fetch = λ sent. some (record { status = 200; headers = [] });
  stringify = λ v. [];
}

-- Athenz refuses the identity token.
abbrev refusing : Services
refusing = record services { get_access_token = λ s scope audience. err reauthentication_required }

handle_sound_example :
    IsAnswered platform services (lit "f") 5000 (lit "s") request ((lit "b", session) ∷ [])
unfolding handle is_valid_server_id bearer_token get text_beq starts_with Sessions.get
    is_public_mcp_discovery_request access_scope_for_request property tool_name trim message
    method_of returned_headers
handle_sound_example =
    handle_sound platform services (lit "f") 5000 (lit "s") request ((lit "b", session) ∷ [])
      (lit "s") 200 [] refl

handle_reauthentication_example :
    ((Sessions.get platform 6000
        (bearer_token request)
        (handle platform refusing (lit "f") 5000 (lit "s") request ((lit "b", session) ∷ [])).0).1
      ≡ none)
    × ((handle platform refusing (lit "f") 5000 (lit "s") request ((lit "b", session) ∷ [])).1
        ≡ challenge (lit "reauth_required") (some (lit "s")))
unfolding require_session proxy is_valid_server_id bearer_token get text_beq starts_with
    Sessions.get is_public_mcp_discovery_request access_scope_for_request property tool_name trim
    message method_of
handle_reauthentication_example =
    handle_reauthentication platform refusing (lit "f") 5000 6000 (lit "s") request
      ((lit "b", session) ∷ []) session refl refl refl

abbrev no_caches : Caches
no_caches = record { access_tokens = []; id_jags = []; in_flight = [] }
