-- ===== src/Gateway/Protected/Headers/Passed.antt =====
-- What reaches an MCP server of the headers and the path of a request (routes/protected.ts).
use id_jag_the_hard_way.Base.{
  true, false, List, Member, All, All-member, Option, none, some, [], ◌∷◌, ◌++◌, ◌==◌, ◌≡◌, refl,
  arith, ◌∙◌, nat_eq, Bool-cases, inl, inr, subst,
}
use id_jag_the_hard_way.Base.Text.{Text, text_eq, text_beq, text_beq_iff, starts_with, lit}
use id_jag_the_hard_way.Base.Text.Search.{starts_with-append}
use id_jag_the_hard_way.Base.Dict.{Dict, get, set, get-set, get-set_self}
use id_jag_the_hard_way.Base.Options.{truthy}
use id_jag_the_hard_way.Gateway.Protected.Scopes.{HeaderValue, McpRequest}
use id_jag_the_hard_way.Gateway.Protected.Headers.{
  downstream_header, authorization_header, is_hop_by_hop, lower_case, is_withheld, header_text,
  with_header, passed_headers, with_value, bearer, forwarded_request_headers, slash,
  without_trailing_slashes, without_leading_slashes, suffix_of, proxy_pathname,
}

without_trailing_slashes_prefix : (s : Text) → starts_with s (without_trailing_slashes s) ≡ true
unfolding starts_with without_trailing_slashes
without_trailing_slashes_prefix [] = refl
without_trailing_slashes_prefix (c ∷ s) = ground (arith, without_trailing_slashes_prefix s)

-- A forwarded request stays below the path that the hub registered for the server.
pub proxy_pathname_below :
    (upstream base requested : Text)
    → starts_with (proxy_pathname upstream base requested) (without_trailing_slashes upstream)
      ≡ true
unfolding proxy_pathname
proxy_pathname_below upstream base requested = ground (
  arith,
  without_trailing_slashes_prefix upstream,
  starts_with-append (without_trailing_slashes upstream)
      (slash ++ without_leading_slashes (suffix_of base requested)),
)

set-withheld :
    (headers : Dict Text) (key name value : Text)
    → is_withheld key ≡ false
    → is_withheld name ≡ true
    → get (set headers key value) name ≡ get headers name
set-withheld headers key name value passed held = elim (Bool-cases (key == name)) [
  | inl same ↦
      let equal : key ≡ name = (text_beq_iff key name).0 same in
      absurd (cc (subst (λ k. is_withheld k ≡ false) equal passed))
  | inr other ↦ get-set headers key name value ∙ rw other
]

get-nil : (name : Text) → ◌≡◌ {A = Option Text} (get [] name) none
unfolding get
get-nil name = refl

withheld-passed :
    (name : Text) (given : Dict HeaderValue) (headers : Dict Text)
    → is_withheld name ≡ true
    → get (passed_headers given headers) name ≡ get headers name
unfolding passed_headers
withheld-passed name [] headers h = refl
withheld-passed name ((key, value) ∷ given) headers h =
    withheld-passed name given (with_header headers (lower_case key) (header_text value)) h
    ∙ untouched (header_text value)
  where
    untouched :
        (o : Option Text) → get (with_header headers (lower_case key) o) name ≡ get headers name
    untouched none = refl
    untouched (some v) = elim (Bool-cases (is_withheld (lower_case key))) [
      | inl held ↦ rw held
      | inr passed ↦ rw (passed, set-withheld headers (lower_case key) name v passed h)
    ]

module _ (headers : Dict Text) (key : Text) where
  with_value_self :
      (o : Option Text) → get headers key ≡ none → get (with_value headers key o) key ≡ o
  with_value_self none h = h
  with_value_self (some v) h = get-set_self headers key v

  with_value_other :
      (o : Option Text) (name : Text)
      → (key == name) ≡ false
      → get (with_value headers key o) name ≡ get headers name
  with_value_other none name other = refl
  with_value_other (some v) name other = get-set headers key name v ∙ rw other

authorization-ne-downstream :
    ((authorization_header == downstream_header) ≡ false)
    × ((downstream_header == authorization_header) ≡ false)
unfolding text_beq
authorization-ne-downstream = (refl, refl)

withheld_headers :
    (is_withheld authorization_header ≡ true) × (is_withheld downstream_header ≡ true)
unfolding is_withheld is_hop_by_hop text_beq
withheld_headers = (refl, refl)

-- the hop-by-hop headers and the host
abbrev pub stay_behind : List Text
stay_behind =
    lit "connection"
    ∷ lit "content-length"
    ∷ lit "content-encoding"
    ∷ lit "keep-alive"
    ∷ lit "proxy-authenticate"
    ∷ lit "proxy-authorization"
    ∷ lit "te"
    ∷ lit "trailer"
    ∷ lit "transfer-encoding"
    ∷ lit "upgrade"
    ∷ lit "host"
    ∷ []

abbrev IsKept : Text → Type 0
IsKept name =
    (is_withheld name ≡ true)
    × ((authorization_header == name) ≡ false)
    × ((downstream_header == name) ≡ false)

withheld_names : All IsKept stay_behind
unfolding is_withheld is_hop_by_hop text_beq
withheld_names = (
  (refl, refl, refl),
  (
    (refl, refl, refl),
    (
      (refl, refl, refl),
      (
        (refl, refl, refl),
        (
          (refl, refl, refl),
          (
            (refl, refl, refl),
            (
              (refl, refl, refl),
              (
                (refl, refl, refl),
                ((refl, refl, refl), ((refl, refl, refl), ((refl, refl, refl), tt))),
              ),
            ),
          ),
        ),
      ),
    ),
  ),
)

-- An MCP server sees the gateway's own access token and downstream scope, or none, and never
-- those that the caller sent; hop-by-hop headers and the host stay behind.
pub forwarded_request_headers_lem :
    (r : McpRequest) (access_token downstream_scope : Option Text)
    → (get (forwarded_request_headers r access_token downstream_scope) authorization_header
        ≡ bearer (truthy access_token))
      × (get (forwarded_request_headers r access_token downstream_scope) downstream_header
          ≡ truthy downstream_scope)
      × ((name : Text)
          → Member name stay_behind
          → get (forwarded_request_headers r access_token downstream_scope) name ≡ none)
unfolding forwarded_request_headers
forwarded_request_headers_lem r access_token downstream_scope =
    let passed : Dict Text = passed_headers r.headers [] in
    let bearing : Dict Text =
      with_value passed authorization_header (bearer (truthy access_token)) in
    let absent : (name : Text) → is_withheld name ≡ true → get passed name ≡ none =
      λ name held. withheld-passed name r.headers [] held ∙ get-nil name in
    let token = bearer (truthy access_token) in
    (
      with_value_other bearing downstream_header (truthy downstream_scope) authorization_header
            authorization-ne-downstream.1
          ∙ with_value_self passed authorization_header token
              (absent authorization_header withheld_headers.0),
      with_value_self bearing downstream_header (truthy downstream_scope) (
          with_value_other passed authorization_header token downstream_header
            authorization-ne-downstream.0
          ∙ absent downstream_header withheld_headers.1),
      λ name m.
          let (held, a, d) = All-member IsKept stay_behind name withheld_names m in
          with_value_other bearing downstream_header (truthy downstream_scope) name d
          ∙ (with_value_other passed authorization_header token name a ∙ absent name held),
    )
