-- ===== src/Gateway/Registry/Routed.antt =====
-- Which routes the registry client of mcpRegistry.ts can return.
use id_jag_the_hard_way.Base.{
  true, false, Option, none, some, [], ◌∷◌, ◌≡◌, ◌≢◌, refl, subst, ap, ok, arith, >>=-eq-ok,
  is_empty, ◌>>=◌, ok-injective, Bool-cases, inl, inr,
}
use id_jag_the_hard_way.Base.Text.{Text, text_eq, lit, trim}
use id_jag_the_hard_way.Base.Dict.{Dict, get, set, Entries, Entries-set, Entries-get}
use id_jag_the_hard_way.Base.Json.{
  Value, null, bool, num, str, arr, obj, Items, nil, cons, Fields, end, field, property,
}
use id_jag_the_hard_way.Base.Options.{truthy-eq-some}
use id_jag_the_hard_way.Gateway.Registry.{
  ProxyUrl, Routes, RegistryError, ResolvedMcpRoute, is_audience, configured_text, checked_audience,
  tool_scope, parse_access_audience, parse_default_tool_permission, parse_tool, parse_tools,
  parse_tool_scopes, route_of, is_http, add_parsed, add_named, add_server, routes_from, resolve,
  found_route, or_else, first_scope_domain,
}

-- A tool's name is not blank and its scope is not empty.
abbrev pub IsToolScope : Text → Text → Type 0
IsToolScope name scope = (trim name ≢ []) × (scope ≢ [])

abbrev pub HasToolScopes : Option (Dict Text) → Type 0
HasToolScopes none = Unit
HasToolScopes (some scopes) = Entries IsToolScope scopes

abbrev pub HasAudience : Option Text → Type 0
HasAudience none = Unit
HasAudience (some audience) = is_audience audience ≡ true

-- The route leads to a URL over HTTP, and what is configured for it is well formed.
pub record IsRouted (parse_url : Text → Option ProxyUrl) (route : ResolvedMcpRoute) : Type 0 where
  pub source : Text
  pub url : ProxyUrl
  pub parsed : parse_url source ≡ some url
  pub over_http : is_http url.protocol ≡ true
  pub its_url : route.proxy_url ≡ url.text
  pub audience : HasAudience route.access_audience
  pub scope : route.access_scope ≢ some []
  pub tools : HasToolScopes route.tool_scopes

checked_audience_sound :
    (o : Option Text) {audience : Option Text}
    → checked_audience o ≡ ok audience
    → HasAudience audience
checked_audience_sound none {audience} h = subst HasAudience (ok-injective h) tt
checked_audience_sound (some a) {audience} h = elim (Bool-cases (is_audience a)) [
  | inl good ↦ subst HasAudience (ok-injective {E = RegistryError} {a = some a} (ground arith)) good
  | inr bad ↦ absurd (ground arith)
]

configured_text_pos : (o : Option Value) → configured_text o ≢ some []
unfolding configured_text
configured_text_pos (some (str s)) h = (truthy-eq-some (some (trim s)) h).1 refl
configured_text_pos none h = cc
configured_text_pos (some null) h = cc
configured_text_pos (some (bool b)) h = cc
configured_text_pos (some (num n)) h = cc
configured_text_pos (some (arr vs)) h = cc
configured_text_pos (some (obj fs)) h = cc

is_empty-false : (s : Text) → is_empty s ≡ false → s ≢ []
is_empty-false [] h = cc
is_empty-false (c ∷ s) h = λ e. cc

parse_tool_sound :
    (name : Text) (v : Value) {scope : Text} → parse_tool name v ≡ ok scope → IsToolScope name scope
unfolding parse_tool
parse_tool_sound name (str s) {scope} h = elim (Bool-cases (is_empty (trim name))) [
  | inl blank ↦ absurd (ground arith)
  | inr named ↦ elim (Bool-cases (is_empty (tool_scope s))) [
    | inl empty ↦ absurd (ground arith)
    | inr full ↦ (
      is_empty-false (trim name) named,
      subst (λ t. t ≢ []) (ok-injective {E = RegistryError} {a = tool_scope s} (ground arith))
          (is_empty-false (tool_scope s) full),
    )
  ]
]
parse_tool_sound name null h = absurd (cc h)
parse_tool_sound name (bool b) h = absurd (cc h)
parse_tool_sound name (num n) h = absurd (cc h)
parse_tool_sound name (arr vs) h = absurd (cc h)
parse_tool_sound name (obj fs) h = absurd (cc h)

parse_tools_sound :
    (fs : Fields) (scopes : Dict Text) {parsed : Dict Text}
    → Entries IsToolScope scopes
    → parse_tools fs scopes ≡ ok parsed
    → Entries IsToolScope parsed
unfolding parse_tools
parse_tools_sound end scopes good h = subst (Entries IsToolScope) (ok-injective h) good
parse_tools_sound (field name v fs) scopes good h =
    let (scope, read, h1) = >>=-eq-ok (parse_tool name v) _ h in
    parse_tools_sound fs (set scopes name scope)
      (Entries-set IsToolScope scopes name scope good (parse_tool_sound name v read)) h1

parse_tool_scopes_sound :
    (v : Option Value) {scopes : Option (Dict Text)}
    → parse_tool_scopes v ≡ ok scopes
    → HasToolScopes scopes
unfolding parse_tool_scopes
parse_tool_scopes_sound none h = subst HasToolScopes (ok-injective h) tt
parse_tool_scopes_sound (some (obj fs)) h =
    let (scopes, read, h1) = >>=-eq-ok (parse_tools fs []) _ h in
    subst HasToolScopes (ok-injective h1) (parse_tools_sound fs [] tt read)
parse_tool_scopes_sound (some null) h = absurd (cc h)
parse_tool_scopes_sound (some (bool b)) h = absurd (cc h)
parse_tool_scopes_sound (some (num n)) h = absurd (cc h)
parse_tool_scopes_sound (some (str s)) h = absurd (cc h)
parse_tool_scopes_sound (some (arr vs)) h = absurd (cc h)

module _ (parse_url : Text → Option ProxyUrl) where
  route_of_sound :
      (source : Text) (url : ProxyUrl) (server : Fields) {route : ResolvedMcpRoute}
      → parse_url source ≡ some url
      → is_http url.protocol ≡ true
      → route_of url.text server ≡ ok route
      → IsRouted parse_url route
  unfolding route_of parse_access_audience
  route_of_sound source url server parsed over_http h =
      let (permission, p, h1) =
        >>=-eq-ok (parse_default_tool_permission (property server (lit "defaultToolPermission"))) _
          h in
      let (audience, a, h2) =
        >>=-eq-ok
          (checked_audience (
            or_else (configured_text (property server (lit "accessAudience")))
              (first_scope_domain (property server (lit "accessScope")))))
          _ h1 in
      let (scopes, s, h3) =
        >>=-eq-ok (parse_tool_scopes (property server (lit "toolScopes"))) _ h2 in
      subst (IsRouted parse_url) (ok-injective h3) (record {
        source = source;
        url = url;
        parsed = parsed;
        over_http = over_http;
        its_url = refl;
        audience = checked_audience_sound _ a;
        scope = configured_text_pos (property server (lit "accessScope"));
        tools = parse_tool_scopes_sound _ s;
      })

  abbrev pub AreRouted : Routes → Type 0
  AreRouted = Entries (λ id route. IsRouted parse_url route)

  add_parsed_sound :
      (route_id source : Text) (url : Option ProxyUrl) (server : Fields) (routes : Routes)
      {routes' : Routes}
      → parse_url source ≡ url
      → AreRouted routes
      → add_parsed parse_url route_id url server routes ≡ ok routes'
      → AreRouted routes'
  unfolding add_parsed
  add_parsed_sound route_id source none server routes e good h = absurd (cc h)
  add_parsed_sound route_id source (some url) server routes {routes'} e good h =
      elim (Bool-cases (is_http url.protocol)) [
        | inr other ↦
            subst AreRouted (ok-injective {E = RegistryError} {a = routes} (ground arith)) good
        | inl http ↦ stored http (rw http at h)
      ]
    where
      stored :
          is_http url.protocol ≡ true
          → (route_of url.text server >>= (λ route. ok (set routes route_id route))) ≡ ok routes'
          → AreRouted routes'
      stored http h =
          let (route, read, h1) = >>=-eq-ok (route_of url.text server) _ h in
          subst AreRouted (ok-injective h1) (
            Entries-set (λ id r. IsRouted parse_url r) routes route_id route good
              (route_of_sound source url server e http read))

  add_named_sound :
      (id source : Option Text) (server : Fields) (routes : Routes) {routes' : Routes}
      → AreRouted routes
      → add_named parse_url id source server routes ≡ ok routes'
      → AreRouted routes'
  unfolding add_named
  add_named_sound (some id) (some source) server routes good h =
      add_parsed_sound id source (parse_url source) server routes refl good h
  add_named_sound (some id) none server routes good h = subst AreRouted (ok-injective h) good
  add_named_sound none (some source) server routes good h = subst AreRouted (ok-injective h) good
  add_named_sound none none server routes good h = subst AreRouted (ok-injective h) good

  add_server_sound :
      (server : Value) (routes : Routes) {routes' : Routes}
      → AreRouted routes
      → add_server parse_url server routes ≡ ok routes'
      → AreRouted routes'
  unfolding add_server
  add_server_sound (obj fs) routes good h = add_named_sound _ _ fs routes good h
  add_server_sound null routes good h = absurd (cc h)
  add_server_sound (bool b) routes good h = subst AreRouted (ok-injective h) good
  add_server_sound (num n) routes good h = subst AreRouted (ok-injective h) good
  add_server_sound (str s) routes good h = subst AreRouted (ok-injective h) good
  add_server_sound (arr vs) routes good h = subst AreRouted (ok-injective h) good

  routes_from_sound :
      (servers : Items) (routes : Routes) {routes' : Routes}
      → AreRouted routes
      → routes_from parse_url servers routes ≡ ok routes'
      → AreRouted routes'
  unfolding routes_from
  routes_from_sound nil routes good h = subst AreRouted (ok-injective h) good
  routes_from_sound (cons server servers) routes good h =
      let (next, added, h1) = >>=-eq-ok (add_server parse_url server routes) _ h in
      routes_from_sound servers next (add_server_sound server routes good added) h1

  -- A route that is resolved from the servers that the hub published leads to a URL over HTTP,
  -- its audience is a well-formed name, and neither its scope nor that of any of its tools is
  -- empty.
  pub resolve_sound :
      (servers : Items) (routes : Routes) (server_id : Text) (route : ResolvedMcpRoute)
      → routes_from parse_url servers [] ≡ ok routes
      → resolve server_id routes ≡ ok route
      → IsRouted parse_url route
  unfolding resolve
  resolve_sound servers routes server_id route h found =
      Entries-get (λ id r. IsRouted parse_url r) routes server_id route
        (routes_from_sound servers [] tt h) (found_sound (get routes server_id) found)
    where
      found_sound :
          (o : Option ResolvedMcpRoute) → found_route server_id o ≡ ok route → o ≡ some route
      found_sound none h = absurd (cc h)
      found_sound (some r) h = ap some (ok-injective h)
