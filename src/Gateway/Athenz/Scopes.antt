-- ===== src/Gateway/Athenz/Scopes.antt =====
-- Scopes, their domains and roles, and how sets of scopes are compared (athenz.ts).
use id_jag_the_hard_way.Base.{
  ℕ, ◌+◌, Bool, true, false, not, ◌&&◌, ◌||◌, Option, none, some, List, [], ◌∷◌, if◌then◌else◌,
  ◌==◌, nat_eq, length, take, drop, is_empty, includes, head?, Result, ok, err, ◌>>=◌,
}
use id_jag_the_hard_way.Base.Text.{
  Text, text_eq, lit, trim, split_spaces, words, unique, sort, join, index_of,
}
use id_jag_the_hard_way.Base.Text.Words.{blank}
use id_jag_the_hard_way.Base.Options.{is_text}

pub data ScopeError : Type 0 where
  scope_required audience_mismatch : ScopeError
  unqualified : Text → ScopeError

abbrev pub marker : Text
marker = lit ":role."

unfoldable pub scope_values : Text → List Text
scope_values scope = sort (unique (words scope))

unfoldable pub normalize_scope : Text → Result ScopeError Text
normalize_scope scope =
    let values = scope_values scope in
    if is_empty values then err scope_required else ok (join blank values)

-- `scope.slice(0, index)` behind the checks that both callers make.
unfoldable pub domain_at : Text → Option ℕ → Result ScopeError Text
domain_at scope none = err (unqualified scope)
domain_at scope (some i) =
    if i == 0 || (i + length marker) == length scope
    then err (unqualified scope)
    else ok (take i scope)

-- `undefined` and the empty text have no domain.
unfoldable pub scope_domain : Option Text → Result ScopeError (Option Text)
unfolding domain_at
scope_domain none = ok none
scope_domain (some []) = ok none
scope_domain (some (c ∷ scope)) = do
  domain ← domain_at (c ∷ scope) (index_of (c ∷ scope) marker)
  ok (some domain)

unfoldable pub domains : List Text → Result ScopeError (List Text)
domains [] = ok []
domains (scope ∷ scopes) = do
  domain ← domain_at scope (index_of scope marker)
  rest ← domains scopes
  ok (domain ∷ rest)

unfoldable pub requested_audiences : List Text → Result ScopeError (List Text)
unfolding domains
requested_audiences scopes = do found ← domains scopes; ok (sort (unique found))

-- `configured?.trim() || scopeDomain(first)`
unfoldable pub selected_audience :
    Option Text → (first : Option Text) → Result ScopeError (Option Text)
unfolding scope_domain
selected_audience none first = scope_domain first
selected_audience (some (c ∷ audience)) first = ok (some (c ∷ audience))
selected_audience (some []) first = scope_domain first

abbrev pub trimmed : Option Text → Option Text
trimmed none = none
trimmed (some s) = some (trim s)

abbrev pub checked_audience : List Text → Option Text → Result ScopeError Text
checked_audience requested none = err audience_mismatch
checked_audience requested (some audience) =
    if is_empty audience || not (includes requested audience)
    then err audience_mismatch
    else ok audience

unfoldable pub access_token_audience : Text → (configured : Option Text) → Result ScopeError Text
unfolding requested_audiences selected_audience
access_token_audience scope configured = do
  requested ← requested_audiences (scope_values scope)
  audience ← selected_audience (trimmed configured) (head? (split_spaces (trim scope)))
  checked_audience requested audience

abbrev after_marker : Text → Option ℕ → Option Text
after_marker scope none = none
after_marker scope (some i) = some (drop (i + length marker) scope)

unfoldable pub role_name : Text → Option Text
role_name scope = after_marker scope (index_of scope marker)

unfoldable pub equivalent_scope : Text → Text → Bool
equivalent_scope left right =
    left == right || is_text (role_name left) right || is_text (role_name right) left

-- `findIndex` and `splice`: the list without its first equivalent of `scope`.
unfoldable pub take_match : Text → List Text → Option (List Text)
take_match scope [] = none
take_match scope (candidate ∷ available) =
    let later = take_match scope available in
    if equivalent_scope candidate scope
    then some available
    else elim later [ none ↦ none | some rest ↦ some (candidate ∷ rest) ]

unfoldable pub scopes_cover : (granted requested : List Text) → Bool
scopes_cover available [] = true
scopes_cover available (scope ∷ scopes) = elim (take_match scope available) [
  | none ↦ false
  | some rest ↦ scopes_cover rest scopes
]

unfoldable pub scopes_exactly_match : List Text → List Text → Bool
scopes_exactly_match left right = length left == length right && scopes_cover left right

abbrev same_at : List Text → List Text → Bool
same_at [] ys = true
same_at (x ∷ xs) [] = false
same_at (x ∷ xs) (y ∷ ys) = x == y && same_at xs ys

unfoldable pub audiences_exactly_match : List Text → List Text → Bool
audiences_exactly_match left right = length left == length right && same_at left right
