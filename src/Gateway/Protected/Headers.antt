-- ===== src/Gateway/Protected/Headers.antt =====
-- The headers that routes/protected.ts passes on, and the path that it passes them to.
pub mod Passed
use id_jag_the_hard_way.Base.{
  ◌+◌, Bool, true, false, ◌&&◌, ◌||◌, Option, none, some, List, [], ◌∷◌, ◌++◌, map, if◌then◌else◌,
  is_empty, includes, leb, drop, length, ◌==◌, ◌≡◌, refl, arith, ◌∙◌, nat_eq, Bool-cases, inl, inr,
  subst,
}
use id_jag_the_hard_way.Base.Text.{Text, text_eq, text_beq, text_beq_iff, lit, join, starts_with}
use id_jag_the_hard_way.Base.Text.Search.{starts_with-append}
use id_jag_the_hard_way.Base.Dict.{Dict, get, set, get-set, get-set_self}
use id_jag_the_hard_way.Base.Options.{truthy}
use id_jag_the_hard_way.Gateway.Protected.Scopes.{HeaderValue, single, many, McpRequest}

abbrev pub downstream_header : Text
downstream_header = lit "x-idthw-mcp-downstream-scope"

abbrev pub authorization_header : Text
authorization_header = lit "authorization"

abbrev pub hop_by_hop_headers : List Text
hop_by_hop_headers =
    lit "connection"
    ∷ lit "content-length"
    ∷ lit "content-encoding"
    ∷ lit "keep-alive"
    ∷ lit "proxy-authenticate"
    ∷ lit "proxy-authorization"
    ∷ lit "te"
    ∷ lit "trailer"
    ∷ lit "transfer-encoding"
    ∷ lit "upgrade"
    ∷ []

unfoldable pub is_hop_by_hop : Text → Bool
is_hop_by_hop = includes hop_by_hop_headers

-- Header names are ASCII.
abbrev pub lower_case : Text → Text
lower_case = map (λ c. if leb b'A' c && leb c b'Z' then c + 32 else c)

-- The headers of a request that stay behind.
unfoldable pub is_withheld : Text → Bool
unfolding is_hop_by_hop
is_withheld name =
    is_hop_by_hop name
    || name == lit "host"
    || name == authorization_header
    || name == downstream_header

abbrev pub header_text : HeaderValue → Option Text
header_text (single s) = truthy (some s)
header_text (many ss) = some (join (lit ", ") ss)

-- `Headers.set` keeps names in lower case.
abbrev pub with_header : Dict Text → Text → Option Text → Dict Text
with_header headers name none = headers
with_header headers name (some value) = if is_withheld name then headers else set headers name value

unfoldable pub passed_headers : Dict HeaderValue → Dict Text → Dict Text
passed_headers [] headers = headers
passed_headers ((key, value) ∷ rest) headers =
    passed_headers rest (with_header headers (lower_case key) (header_text value))

-- `if (o) headers.set(name, o)`
abbrev pub with_value : Dict Text → Text → Option Text → Dict Text
with_value headers name none = headers
with_value headers name (some value) = set headers name value

abbrev pub bearer : Option Text → Option Text
bearer none = none
bearer (some token) = some (lit "Bearer " ++ token)

unfoldable pub forwarded_request_headers :
    McpRequest → (access_token downstream_scope : Option Text) → Dict Text
unfolding passed_headers
forwarded_request_headers r access_token downstream_scope =
    with_value
      (with_value (passed_headers r.headers []) authorization_header (bearer (truthy access_token)))
      downstream_header (truthy downstream_scope)

-- The headers of the answer that are passed back.
unfoldable pub returned_headers : Dict Text → Dict Text
returned_headers [] = []
returned_headers ((key, value) ∷ rest) =
    let later = returned_headers rest in
    if is_hop_by_hop (lower_case key) then later else (key, value) ∷ later

abbrev pub slash : Text
slash = lit "/"

-- `.replace(/\/+$/, "")`
unfoldable pub without_trailing_slashes : Text → Text
without_trailing_slashes [] = []
without_trailing_slashes (c ∷ s) =
    let rest = without_trailing_slashes s in if c == b'/' && is_empty rest then [] else c ∷ rest

-- `.replace(/^\/+/, "")`
unfoldable pub without_leading_slashes : Text → Text
without_leading_slashes [] = []
without_leading_slashes (c ∷ s) =
    let rest = without_leading_slashes s in if c == b'/' then rest else c ∷ s

unfoldable pub suffix_of : (base requested : Text) → Text
suffix_of base requested = if starts_with requested base then drop (length base) requested else []

-- The path of `buildProxyUrl`: `base` is the gateway's own path to the server.
unfoldable pub proxy_pathname : (upstream base requested : Text) → Text
unfolding suffix_of without_trailing_slashes without_leading_slashes
proxy_pathname upstream base requested =
    let suffix = suffix_of base requested in
    if is_empty suffix || suffix == slash
    then upstream
    else without_trailing_slashes upstream ++ (slash ++ without_leading_slashes suffix)
