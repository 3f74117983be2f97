-- ===== src/GenaiProxy/Auth.antt =====
-- components/genai_proxy/src/auth.ts: the verifier of access tokens. The base64url and JSON decoding
-- of a segment and the check of the signature are parameters.
pub mod Soundness
use id_jag_the_hard_way.Base.{
  ℕ, ◌+◌, ◌*◌, Bool, true, false, not, ◌&&◌, ◌||◌, Option, none, some, List, [], ◌∷◌, ◌++◌, map,
  if◌then◌else◌, leb, ltb, drop, length, all, includes, keep_if, is_empty, nat_eq, ◌==◌, Result, ok,
  err, ◌>>=◌, ◌>>◌, throw_if,
}
use id_jag_the_hard_way.Base.Text.{
  Text, text_eq, lit, trim, trim_start, starts_with, split_at_from, split_spaces, nonempty,
  is_space,
}
use id_jag_the_hard_way.Base.Json.{
  Number, nat, thousandths, negative, infinite, Value, num, str, arr, Items, nil, cons, Fields,
  property, as_text,
}
use id_jag_the_hard_way.Base.Options.{is_text}

pub record AuthContext : Type 0 where
  pub audience : Text
  pub client_id : Text
  pub project : Text
  pub scope : Text
  pub subject : Text

pub data AccessTokenError : Type 0 where
  missing_access_token invalid_access_token insufficient_scope : AccessTokenError

-- `signed` is the text before the signature; `decode` is `none` where a segment is too long or is not
-- the base64url form of a JSON object.
pub record TokenVerifierOptions : Type 0 where
  pub audience_prefix : Text
  pub required_scope : Text
  pub decode : (segment : Text) → Option Fields
  pub verify : (signed signature : Text) → Bool

abbrev pub between : ℕ → ℕ → ℕ → Bool
between lo hi c = leb lo c && leb c hi

-- `[A-Za-z0-9_-]`
abbrev pub is_segment_char : ℕ → Bool
is_segment_char c =
    between b'A' b'Z' c || between b'a' b'z' c || between b'0' b'9' c || c == b'_' || c == b'-'

abbrev pub is_segment : Text → Bool
is_segment s = not (is_empty s) && all is_segment_char s

abbrev pub is_project_start : ℕ → Bool
is_project_start c = between b'a' b'z' c || between b'0' b'9' c

-- `/^[a-z0-9][a-z0-9_-]*$/`
unfoldable pub is_project : Text → Bool
is_project [] = false
is_project (c ∷ s) = is_project_start c && all (λ d. is_project_start d || d == b'_' || d == b'-') s

abbrev pub lower_case : Text → Text
lower_case = map (λ c. if between b'A' b'Z' c then c + 32 else c)

-- What follows the scheme: white space, and then a token without any.
unfoldable pub token_after : Text → Option Text
unfolding trim_start is_space
token_after [] = none
token_after (c ∷ s) =
    let token = trim_start s in
    if is_space c && (not (is_empty token) && all (λ d. not (is_space d)) token)
    then some token
    else none

-- `/^Bearer\s+(\S+)$/i` on the trimmed header
unfoldable pub bearer_match : Text → Option Text
unfolding token_after
bearer_match s = if starts_with (lower_case s) (lit "bearer") then token_after (drop 6 s) else none

abbrev pub or_empty : Option Text → Text
or_empty none = []
or_empty (some s) = s

unfoldable pub bearer_token : Option Text → Result AccessTokenError Text
unfolding bearer_match
bearer_token value = elim (bearer_match (trim (or_empty value))) [
  | none ↦ err missing_access_token
  | some token ↦ ok token
]

-- Exactly three segments.
abbrev pub three : List Text → Result AccessTokenError (Text × (Text × Text))
three (a ∷ b ∷ c ∷ []) =
    if is_segment a && is_segment b && is_segment c
    then ok (a, (b, c))
    else err invalid_access_token
three _ = err invalid_access_token

unfoldable pub segments_of : Text → Result AccessTokenError (Text × (Text × Text))
segments_of token = three (split_at_from b'.' [] token)

abbrev pub decoded : Option Fields → Result AccessTokenError Fields
decoded none = err invalid_access_token
decoded (some fs) = ok fs

-- A finite number of seconds, in milliseconds; a negative one counts as 0, which has passed as well.
unfoldable pub numeric_date : Option Value → Option ℕ
numeric_date (some (num (nat n))) = some (n * 1000)
numeric_date (some (num (thousandths n))) = some n
numeric_date (some (num negative)) = some 0
numeric_date _ = none

abbrev pub has_expired : ℕ → Option ℕ → Bool
has_expired now none = true
has_expired now (some exp) = leb exp (now * 1000)

abbrev pub not_before : ℕ → Option ℕ → Bool
not_before now none = false
not_before now (some nbf) = leb nbf (now * 1000)

-- An absent `nbf` sets no bound.
abbrev pub has_begun : ℕ → Option Value → Bool
has_begun now none = true
has_begun now (some v) = not_before now (numeric_date (some v))

-- `Array.isArray(v) && v.every((x) => typeof x === "string")`, with the texts
unfoldable pub all_strings : Items → Option (List Text)
all_strings nil = some []
all_strings (cons (str s) vs) = elim (all_strings vs) [ none ↦ none | some ss ↦ some (s ∷ ss) ]
all_strings (cons _ vs) = none

unfoldable pub audiences_of : Option Value → List Text
unfolding all_strings
audiences_of (some (str s)) = s ∷ []
audiences_of (some (arr vs)) = elim (all_strings vs) [ none ↦ [] | some ss ↦ ss ]
audiences_of _ = []

abbrev pub only_audience : (prefix : Text) → List Text → Result AccessTokenError Text
only_audience prefix (audience ∷ []) =
    if starts_with audience prefix then ok audience else err invalid_access_token
only_audience prefix _ = err invalid_access_token

unfoldable pub token_audience : Option Value → (prefix : Text) → Result AccessTokenError Text
unfolding audiences_of
token_audience value prefix = only_audience prefix (audiences_of value)

unfoldable pub item_strings : Items → List Text
item_strings nil = []
item_strings (cons (str s) vs) = s ∷ item_strings vs
item_strings (cons _ vs) = item_strings vs

-- A text is split into words; the texts of an array are scopes as they stand.
unfoldable pub claim_scopes : Option Value → List Text
unfolding item_strings
claim_scopes (some (str s)) = nonempty (split_spaces s)
claim_scopes (some (arr vs)) = nonempty (item_strings vs)
claim_scopes _ = []

unfoldable pub token_scopes : Fields → List Text
unfolding claim_scopes
token_scopes claims =
    claim_scopes (property claims (lit "scp")) ++ claim_scopes (property claims (lit "scope"))

abbrev pub is_subject : Text → Bool
is_subject subject = starts_with subject (lit "user.") && ltb 5 (length subject)

module _ (o : TokenVerifierOptions) where
  -- The checks of the claims, behind those of the signature and of the time.
  unfoldable pub context_of : Fields → Result AccessTokenError AuthContext
  unfolding token_audience token_scopes is_project
  context_of claims = do
    audience ← token_audience (property claims (lit "aud")) o.audience_prefix
    let project = drop (length o.audience_prefix) audience
    throw_if (not (is_project project)) invalid_access_token
    let subject = or_empty (as_text (property claims (lit "sub")))
    throw_if (not (is_subject subject)) invalid_access_token
    let client_id = or_empty (as_text (property claims (lit "client_id")))
    throw_if (is_empty client_id) invalid_access_token
    throw_if (not (includes (token_scopes claims) o.required_scope)) insufficient_scope
    ok (record {
      audience = audience;
      client_id = client_id;
      project = project;
      scope = audience ++ (lit ":role." ++ o.required_scope);
      subject = subject;
    })

  unfoldable pub is_access_token : (header : Fields) → Bool
  is_access_token header =
      is_text (as_text (property header (lit "alg"))) (lit "RS256")
      && is_text (as_text (property header (lit "typ"))) (lit "at+jwt")

  -- `now` is in seconds.
  unfoldable pub verified_context :
      (now : ℕ) (header payload signature : Text) → Result AccessTokenError AuthContext
  unfolding context_of is_access_token
  verified_context now header payload signature = do
    head ← decoded (o.decode header)
    claims ← decoded (o.decode payload)
    throw_if (not (is_access_token head)) invalid_access_token
    throw_if (not (o.verify (header ++ (lit "." ++ payload)) signature)) invalid_access_token
    throw_if (has_expired now (numeric_date (property claims (lit "exp")))) invalid_access_token
    throw_if (not (has_begun now (property claims (lit "nbf")))) invalid_access_token
    context_of claims

  unfoldable pub authenticate :
      (now : ℕ) (authorization : Option Text) → Result AccessTokenError AuthContext
  unfolding verified_context bearer_token segments_of
  authenticate now authorization = do
    token ← bearer_token authorization
    (header, (payload, signature)) ← segments_of token
    verified_context now header payload signature
