-- ===== src/Gateway/Registry.antt =====
-- components/mcp-gateway/src/services/mcpRegistry.ts: the routes that the hub publishes, cached
-- for a while.
pub mod Routed
pub mod Caching
use id_jag_the_hard_way.Base.{
  ℕ, ◌+◌, Bool, true, false, not, ◌&&◌, ◌||◌, Option, none, some, List, [], ◌∷◌, leb, ltb,
  if◌then◌else◌, is_empty, take, all, includes, nat_eq, head?, Result, ok, err, ◌>>=◌, ◌>>◌,
  throw_if, ◌==◌,
}
use id_jag_the_hard_way.Base.Text.{
  Text, text_eq, lit, trim, index_of, split_spaces, words, nonempty, unique, sort, join,
}
use id_jag_the_hard_way.Base.Text.Words.{blank}
use id_jag_the_hard_way.Base.Dict.{Dict, get, set}
use id_jag_the_hard_way.Base.Json.{
  Value, null, str, obj, Items, nil, cons, Fields, end, field, property, as_text,
}
use id_jag_the_hard_way.Base.Options.{truthy}

pub data ToolPermission : Type 0 where
  none_permission not_defined : ToolPermission

pub record ResolvedMcpRoute : Type 0 where
  pub proxy_url : Text
  pub access_audience : Option Text
  pub access_scope : Option Text
  pub default_tool_permission : Option ToolPermission
  pub tool_scopes : Option (Dict Text)

abbrev pub Routes : Type 0
Routes = Dict ResolvedMcpRoute

pub record CachedRegistry : Type 0 where
  pub expires_at : ℕ
  pub routes : Routes

pub data RegistryError : Type 0 where
  -- the request or the reading of its answer threw, or the status was not a success
  unreachable : RegistryError
  -- a property of `null` was read
  null_server : RegistryError
  invalid_url : RegistryError
  invalid_access_audience invalid_default_tool_permission invalid_tool_scopes empty_tool_scope :
      RegistryError
  not_found : (server_id : Text) → RegistryError

-- What `new URL(s)` gives of a proxy URL: its protocol and its normal form.
pub record ProxyUrl : Type 0 where
  pub protocol : Text
  pub text : Text

-- `[A-Za-z0-9]`
abbrev pub is_alnum : ℕ → Bool
is_alnum c = leb b'0' c && leb c b'9' || leb b'A' c && leb c b'Z' || leb b'a' c && leb c b'z'

-- `[A-Za-z0-9._-]`
abbrev pub is_name_char : ℕ → Bool
is_name_char c = is_alnum c || includes (b'.' ∷ b'_' ∷ b'-' ∷ []) c

-- `/^[A-Za-z0-9][A-Za-z0-9._-]*$/`
unfoldable pub is_audience : Text → Bool
is_audience [] = false
is_audience (c ∷ s) = is_alnum c && all is_name_char s

-- `typeof v === "string" && v.trim() ? v.trim() : undefined`
unfoldable pub configured_text : Option Value → Option Text
configured_text (some (str s)) = truthy (some (trim s))
configured_text _ = none

abbrev domain_before : Text → Option ℕ → Option Text
domain_before scope none = none
domain_before scope (some i) = if leb i 0 then none else some (take i scope)

abbrev domain_of : Option Text → Option Text
domain_of none = none
domain_of (some scope) = domain_before scope (index_of scope (lit ":role."))

unfoldable pub first_scope_domain : Option Value → Option Text
first_scope_domain (some (str s)) = domain_of (head? (words s))
first_scope_domain _ = none

-- `a ?? b`
abbrev pub or_else : Option Text → Option Text → Option Text
or_else none b = b
or_else (some a) b = some a

abbrev pub checked_audience : Option Text → Result RegistryError (Option Text)
checked_audience none = ok none
checked_audience (some audience) =
    if is_audience audience then ok (some audience) else err invalid_access_audience

unfoldable pub parse_access_audience :
    Option Value → Option Value → Result RegistryError (Option Text)
parse_access_audience value access_scope =
    checked_audience (or_else (configured_text value) (first_scope_domain access_scope))

unfoldable pub parse_default_tool_permission :
    Option Value → Result RegistryError (Option ToolPermission)
parse_default_tool_permission none = ok none
parse_default_tool_permission (some (str s)) =
    if s == lit "none"
    then ok (some none_permission)
    else if s == lit "not-defined"
    then ok (some not_defined)
    else err invalid_default_tool_permission
parse_default_tool_permission (some _) = err invalid_default_tool_permission

-- A configured scope in its normal form: sorted words, each once.
unfoldable pub tool_scope : Text → Text
tool_scope configured = join blank (sort (unique (nonempty (split_spaces configured))))

unfoldable pub parse_tool : (name : Text) → Value → Result RegistryError Text
unfolding tool_scope
parse_tool name (str configured) =
    if is_empty (trim name)
    then err invalid_tool_scopes
    else if is_empty (tool_scope configured)
    then err empty_tool_scope
    else ok (tool_scope configured)
parse_tool name _ = err invalid_tool_scopes

-- `Object.fromEntries` of the entries read: a later one replaces an earlier one of its name.
unfoldable pub parse_tools : Fields → Dict Text → Result RegistryError (Dict Text)
unfolding parse_tool
parse_tools end scopes = ok scopes
parse_tools (field name value fs) scopes =
    parse_tool name value >>= λ scope. parse_tools fs (set scopes name scope)

unfoldable pub parse_tool_scopes : Option Value → Result RegistryError (Option (Dict Text))
unfolding parse_tools
parse_tool_scopes none = ok none
parse_tool_scopes (some (obj fs)) = parse_tools fs [] >>= λ scopes. ok (some scopes)
parse_tool_scopes (some _) = err invalid_tool_scopes

unfoldable pub route_of : (proxy_url : Text) → Fields → Result RegistryError ResolvedMcpRoute
unfolding parse_access_audience parse_default_tool_permission parse_tool_scopes
route_of proxy_url server = do
  permission ← parse_default_tool_permission (property server (lit "defaultToolPermission"))
  audience ←
      parse_access_audience (property server (lit "accessAudience"))
        (property server (lit "accessScope"))
  tool_scopes ← parse_tool_scopes (property server (lit "toolScopes"))
  ok (record {
    proxy_url = proxy_url;
    access_audience = audience;
    access_scope = configured_text (property server (lit "accessScope"));
    default_tool_permission = permission;
    tool_scopes = tool_scopes;
  })

abbrev pub is_http : Text → Bool
is_http protocol = protocol == lit "http:" || protocol == lit "https:"

-- `parse_url` is `new URL(s)`, with `none` where it throws.
module _ (parse_url : Text → Option ProxyUrl) where
  unfoldable pub add_parsed :
      (route_id : Text) → Option ProxyUrl → Fields → Routes → Result RegistryError Routes
  unfolding route_of
  add_parsed route_id none server routes = err invalid_url
  add_parsed route_id (some url) server routes =
      if is_http url.protocol
      then route_of url.text server >>= (λ route. ok (set routes route_id route))
      else ok routes

  -- A server without a route id or a proxy URL is passed over.
  unfoldable pub add_named :
      Option Text → Option Text → Fields → Routes → Result RegistryError Routes
  unfolding add_parsed
  add_named (some route_id) (some proxy_url) server routes =
      add_parsed route_id (parse_url proxy_url) server routes
  add_named _ _ server routes = ok routes

  -- Properties of a value that is no object are `undefined`; of `null`, they throw.
  unfoldable pub add_server : Value → Routes → Result RegistryError Routes
  unfolding add_named
  add_server (obj server) routes =
      add_named (as_text (property server (lit "routeId")))
        (as_text (property server (lit "proxyUrl"))) server routes
  add_server null routes = err null_server
  add_server _ routes = ok routes

  unfoldable pub routes_from : Items → Routes → Result RegistryError Routes
  unfolding add_server
  routes_from nil routes = ok routes
  routes_from (cons server servers) routes = add_server server routes >>= routes_from servers

  -- The answer of the hub arrives: its servers, or how the request failed. `now` is the time at
  -- which the request began.
  unfoldable pub routes_arrive :
      (ttl now : ℕ)
      → Result RegistryError Items
      → CachedRegistry
      → Result RegistryError (CachedRegistry × Routes)
  unfolding routes_from
  routes_arrive ttl now answer cache = do
    servers ← answer
    routes ← routes_from servers []
    ok (record { expires_at = now + ttl; routes = routes }, routes)

  -- `getRoutes`: the hub is asked, and its answer used, only when the cache has expired.
  unfoldable pub get_routes :
      (ttl now : ℕ)
      → Result RegistryError Items
      → CachedRegistry
      → Result RegistryError (CachedRegistry × Routes)
  unfolding routes_arrive
  get_routes ttl now answer cache =
      if ltb now cache.expires_at
      then ok (cache, cache.routes)
      else routes_arrive ttl now answer cache

abbrev pub found_route : Text → Option ResolvedMcpRoute → Result RegistryError ResolvedMcpRoute
found_route server_id none = err (not_found server_id)
found_route server_id (some route) = ok route

-- `resolveRoute`, once it has the routes
unfoldable pub resolve : (server_id : Text) → Routes → Result RegistryError ResolvedMcpRoute
resolve server_id routes = found_route server_id (get routes server_id)
