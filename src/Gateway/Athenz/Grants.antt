-- ===== src/Gateway/Athenz/Grants.antt =====
-- What athenz.ts reads from a token response: token, scopes, audiences and expiry.
use id_jag_the_hard_way.Base.{
  ℕ, ◌+◌, ◌*◌, min, Bool, false, not, ◌&&◌, Option, none, some, List, [], ◌∷◌, map, leb,
  if◌then◌else◌, is_empty, Result, ok, err, ◌>>=◌, ◌>>◌, throw_if,
}
use id_jag_the_hard_way.Base.Text.{Text, lit, trim, unique, sort, join, nonempty}
use id_jag_the_hard_way.Base.Text.Words.{blank}
use id_jag_the_hard_way.Base.Json.{
  Number, nat, thousandths, negative, Value, num, str, arr, Items, nil, cons, Fields, property,
}
use id_jag_the_hard_way.Gateway.Athenz.Scopes.{scope_values, scopes_exactly_match}
use id_jag_the_hard_way.Gateway.Athenz.Errors.{
  AthenzError, no_access_token, undecodable, no_scopes, scope_mismatch, no_audience, bad_exp,
  bad_expires_in, too_close_to_expiry,
}

-- As its type says, the fields hold texts and a number.
pub record AthenzTokenResponse : Type 0 where
  pub access_token : Option Text
  pub expires_in : Option Number
  pub scope : Option Text
  pub error : Option Text
  pub error_description : Option Text

pub record Grant : Type 0 where
  pub token : Text
  pub audiences : List Text
  pub scopes : List Text
  pub expires_at_ms : ℕ

abbrev pub token_expiry_skew_ms : ℕ
token_expiry_skew_ms = 60000

unfoldable pub require_access_token : AthenzTokenResponse → Result AthenzError Text
require_access_token response = elim response.access_token [
  | none ↦ err no_access_token
  | some token ↦ if is_empty token then err no_access_token else ok token
]

-- `Array.isArray(v) && v.every((x) => typeof x === "string")`, with the texts
unfoldable pub all_strings : Items → Option (List Text)
all_strings nil = some []
all_strings (cons (str s) vs) = elim (all_strings vs) [ none ↦ none | some ss ↦ some (s ∷ ss) ]
all_strings (cons _ vs) = none

unfoldable pub claimed_scopes : Option Value → List Text
unfolding all_strings
claimed_scopes (some (str s)) = scope_values s
claimed_scopes (some (arr vs)) = elim (all_strings vs) [
  | none ↦ []
  | some ss ↦ scope_values (join blank ss)
]
claimed_scopes _ = []

-- `scp` before `scope`; a claim without values is passed over.
unfoldable pub token_scopes : Fields → Result AthenzError (List Text)
unfolding claimed_scopes
token_scopes claims =
    let scp = claimed_scopes (property claims (lit "scp")) in
    let scope = claimed_scopes (property claims (lit "scope")) in
    if not (is_empty scp) then ok scp else if not (is_empty scope) then ok scope else err no_scopes

abbrev pub claimed_audiences : Option Value → List Text
claimed_audiences (some (str s)) = s ∷ []
claimed_audiences (some (arr vs)) = elim (all_strings vs) [ none ↦ [] | some ss ↦ ss ]
claimed_audiences _ = []

unfoldable pub token_audiences : Option Value → (required : Bool) → Result AthenzError (List Text)
unfolding all_strings
token_audiences value required =
    let normalized = sort (unique (nonempty (map trim (claimed_audiences value)))) in
    if required && is_empty normalized then err no_audience else ok normalized

-- A finite number of seconds, in milliseconds. A negative expiry counts as 0: both have passed.
unfoldable pub exp_ms : Option Value → Result AthenzError ℕ
exp_ms (some (num (nat n))) = ok (n * 1000)
exp_ms (some (num (thousandths n))) = ok n
exp_ms (some (num negative)) = ok 0
exp_ms _ = err bad_exp

-- `undefined` sets no bound; what is not finite or not positive is refused.
unfoldable pub valid_expires_in_ms : Option Number → Result AthenzError (Option ℕ)
valid_expires_in_ms none = ok none
valid_expires_in_ms (some (nat n)) = if leb n 0 then err bad_expires_in else ok (some (n * 1000))
valid_expires_in_ms (some (thousandths n)) = if leb n 0 then err bad_expires_in else ok (some n)
valid_expires_in_ms (some _) = err bad_expires_in

-- `Math.min` with `Infinity` where there is no bound
abbrev pub min_within : ℕ → Option ℕ → ℕ → ℕ
min_within now none at = at
min_within now (some within) at = min at (now + within)

abbrev pub scope_differs : Option Text → List Text → Bool
scope_differs none scopes = false
scope_differs (some scope) scopes = not (scopes_exactly_match scopes (scope_values scope))

abbrev pub decoded : Option Fields → Result AthenzError Fields
decoded none = err undecodable
decoded (some claims) = ok claims

-- The least of the bounds, and what has a minute or less left is refused.
abbrev pub grant_until :
    (token : Text) (audiences scopes : List Text) (now expires_at_ms : ℕ) → Result AthenzError Grant
grant_until token audiences scopes now expires_at_ms =
    if leb expires_at_ms (now + token_expiry_skew_ms)
    then err too_close_to_expiry
    else ok (record {
      token = token;
      audiences = audiences;
      scopes = scopes;
      expires_at_ms = expires_at_ms;
    })

unfoldable pub timed_grant :
    (now session_expires_at : ℕ) (token : Text) (audiences scopes : List Text)
    → Result AthenzError ℕ
    → Result AthenzError (Option ℕ)
    → Result AthenzError Grant
timed_grant now session_expires_at token audiences scopes (err e) within = err e
timed_grant now session_expires_at token audiences scopes (ok exp) (err e) = err e
timed_grant now session_expires_at token audiences scopes (ok exp) (ok within) =
    grant_until token audiences scopes now
      (min (min_within now within exp) (session_expires_at * 1000))

unfoldable pub claimed_grant :
    AthenzTokenResponse
    → (now session_expires_at : ℕ) (require_audience : Bool) (token : Text) (claims : Fields)
    → Result AthenzError Grant
unfolding timed_grant
claimed_grant response now session_expires_at require_audience token claims = do
  scopes ← token_scopes claims
  throw_if (scope_differs response.scope scopes) scope_mismatch
  audiences ← token_audiences (property claims (lit "aud")) require_audience
  timed_grant now session_expires_at token audiences scopes (exp_ms (property claims (lit "exp")))
      (valid_expires_in_ms response.expires_in)

-- `decode_jwt` is that of the `jose` library, with `none` where it throws.
unfoldable pub token_grant :
    (decode_jwt : Text → Option Fields)
    → AthenzTokenResponse
    → (now session_expires_at : ℕ) (require_audience : Bool) → Result AthenzError Grant
unfolding claimed_grant
token_grant decode_jwt response now session_expires_at require_audience = do
  token ← require_access_token response
  claims ← decoded (decode_jwt token)
  claimed_grant response now session_expires_at require_audience token claims
