-- ===== src/Gateway/Athenz/Errors.antt =====
-- The errors of athenz.ts, and which failures of Athenz mean that the identity token is spent.
use id_jag_the_hard_way.Base.{
  ℕ, ◌+◌, Bool, true, false, ◌&&◌, ◌||◌, Option, none, some, List, [], ◌∷◌, leb, if◌then◌else◌,
  drop, includes, nat_eq, ◌≡◌, refl, map, is_empty, ◌==◌, any,
}
use id_jag_the_hard_way.Base.Text.{Text, text_eq, lit, starts_with}
use id_jag_the_hard_way.Gateway.Athenz.Scopes.{ScopeError}

pub data AthenzError : Type 0 where
  bad_scope : ScopeError → AthenzError
  reauthentication_required : AthenzError
  insufficient_scope : (requested granted : List Text) → AthenzError
  no_access_token undecodable no_scopes scope_mismatch no_audience bad_exp bad_expires_in :
      AthenzError
  too_close_to_expiry audience_mismatch : AthenzError
  -- what `postTokenForm` threw
  post_failed : (code message : Text) → AthenzError

-- `/i` folds the letters of ASCII.
abbrev lower : ℕ → ℕ
lower c = if leb b'A' c && leb c b'Z' then c + 32 else c

-- `.` matches no line terminator.
abbrev ends_line : ℕ → Bool
ends_line = includes (10 ∷ 13 ∷ 0x2028 ∷ 0x2029 ∷ [])

-- Some place on the rest of the line begins with one of `ws`: `.*(?:w|…)`.
unfoldable pub on_line : List Text → Text → Bool
on_line ws [] = any is_empty ws
on_line ws (c ∷ s) = any (starts_with (c ∷ s)) ws || (if ends_line c then false else on_line ws s)

-- The rest behind `[-_ ]?token`, if the text begins so.
unfoldable pub after_token : Text → Option Text
after_token s =
    if starts_with s (lit "token")
    then some (drop 5 s)
    else if any (λ p. starts_with s p) (lit "-token" ∷ lit "_token" ∷ lit " token" ∷ [])
    then some (drop 6 s)
    else none

-- The rest behind `(?:id|subject)[-_ ]?token`, if the text begins so.
unfoldable pub after_name : Text → Option Text
unfolding after_token
after_name s =
    if starts_with s (lit "id")
    then after_token (drop 2 s)
    else if starts_with s (lit "subject")
    then after_token (drop 7 s)
    else none

abbrev pub failing : List Text
failing = lit "expired" ∷ lit "invalid" ∷ []

abbrev then_fails : Option Text → Bool
then_fails none = false
then_fails (some rest) = on_line failing rest

-- Some place on the rest of the line begins with the name of a token.
unfoldable pub names_on_line : Text → Bool
unfolding after_name
names_on_line [] = false
names_on_line (c ∷ s) =
    let found : Bool = elim (after_name (c ∷ s)) [ none ↦ false | some r ↦ true ] in
    found || (if ends_line c then false else names_on_line s)

-- `(?:expired|invalid).*(?:id|subject)[-_ ]?token` at the start of the text
abbrev fails_then_names : Text → Bool
fails_then_names s =
    (starts_with s (lit "expired") || starts_with s (lit "invalid")) && names_on_line (drop 7 s)

unfoldable pub message_from : Text → Bool
unfolding after_name on_line names_on_line
message_from [] = false
message_from (c ∷ s) = then_fails (after_name (c ∷ s)) || fails_then_names (c ∷ s) || message_from s

-- The regular expression of `isIdentityTokenFailure`.
unfoldable pub message_matches : Text → Bool
unfolding message_from
message_matches message = message_from (map lower message)

unfoldable pub is_identity_token_failure : (code message : Text) → Bool
unfolding message_matches
is_identity_token_failure code message =
    code == lit "invalid_grant" || code == lit "invalid_token" || message_matches message

failure_tests :
    (message_matches (lit "The ID token has expired") ≡ true)
    × (message_matches (lit "Invalid subject_token") ≡ true)
    × (message_matches (lit "expired certificate") ≡ false)
    × (message_matches (lit "id--token expired") ≡ false)
unfolding message_matches starts_with
failure_tests = (refl, refl, refl, refl)
