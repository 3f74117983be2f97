-- ===== src/Hub/Input.antt =====
-- components/idthw_hub/features/workflow/lib/workflowApplication.ts: the checks by which input of
-- type `unknown` is read. An exception is its message.
pub mod Laws
use id_jag_the_hard_way.Base.{
  ℕ, zero, suc, ◌+◌, ◌-◌, ◌/◌, ◌%◌, Bool, true, false, not, ◌&&◌, ◌||◌, Option, none, some, List,
  [], ◌∷◌, ◌++◌, if◌then◌else◌, ◌==◌, nat_eq, ltb, leb, is_empty, length, all, any, includes, drop,
  take, Result, ok, err, ◌>>=◌, ◌>>◌, throw_if,
}
use id_jag_the_hard_way.Base.Text.{Text, text_eq, lit, trim, starts_with}
use id_jag_the_hard_way.Base.Json.{
  Value, Number, nat, null, bool, num, str, arr, obj, Items, nil, cons, Fields, end, field,
  property, fields,
}

-- What the hub takes from JavaScript's `Date`, `URL` and the collation of its locale.
pub record Runtime : Type 0 where
  -- `Number.isFinite(Date.parse(s))`
  pub is_date : Text → Bool
  -- `new URL(s).protocol`, with `none` where the constructor throws
  pub url_protocol : Text → Option Text
  -- `s.localeCompare(t) <= 0`
  pub locale_leb : Text → Text → Bool

-- `String(n)`, read from the last digit; `n + 1` rounds are enough
unfoldable pub decimal_from : ℕ → ℕ → Text
decimal_from zero n = []
decimal_from (suc fuel) n =
    let front = decimal_from fuel (n / 10) in
    if ltb n 10 then (b'0' + n) ∷ [] else front ++ (b'0' + n % 10) ∷ []

abbrev pub decimal : ℕ → Text
decimal n = decimal_from (n + 1) n

abbrev pub in_range : ℕ → ℕ → ℕ → Bool
in_range low high c = leb low c && leb c high

abbrev pub is_digit : ℕ → Bool
is_digit = in_range b'0' b'9'

abbrev pub is_lower : ℕ → Bool
is_lower = in_range b'a' b'z'

abbrev pub is_letter : ℕ → Bool
is_letter c = is_lower c || in_range b'A' b'Z' c

abbrev pub is_hex : ℕ → Bool
is_hex c = is_digit c || in_range b'a' b'f' c

abbrev pub last_is : (ℕ → Bool) → Text → Bool
last_is p [] = false
last_is p (c ∷ []) = p c
last_is p (c ∷ d ∷ s) = last_is p (d ∷ s)

-- `/^E(?:I*E)?$/`, for the class `E` of the ends and the class `I`, which has `E`, of the inside
unfoldable pub is_framed : (ends inside : ℕ → Bool) → Text → Bool
is_framed ends inside [] = false
is_framed ends inside (c ∷ s) = ends c && (all inside (c ∷ s) && last_is ends (c ∷ s))

-- `/^\d{14}-[a-f0-9]{8}$/`
unfoldable pub is_application_id : Text → Bool
is_application_id s =
    (length s == 23)
    && (all is_digit (take 14 s) && (starts_with (drop 14 s) (lit "-") && all is_hex (drop 15 s)))

abbrev pub is_positive_decimal : Text → Bool
is_positive_decimal [] = false
is_positive_decimal (c ∷ r) = in_range b'1' b'9' c && all is_digit r

-- `/^field-[1-9]\d*$/`
unfoldable pub is_field_id : Text → Bool
is_field_id s = starts_with s (lit "field-") && is_positive_decimal (drop 6 s)

-- `/^[a-z0-9](?:[-a-z0-9]{0,61}[a-z0-9])?$/`
unfoldable pub is_template_id : Text → Bool
unfolding is_framed
is_template_id s =
    leb (length s) 63
    && is_framed (λ c. is_lower c || is_digit c) (λ c. is_lower c || (is_digit c || (c == b'-'))) s

-- `/^[A-Za-z0-9](?:[A-Za-z0-9._-]*[A-Za-z0-9])?$/`
unfoldable pub is_username : Text → Bool
unfolding is_framed
is_username =
    is_framed (λ c. is_letter c || is_digit c)
      (λ c. is_letter c || (is_digit c || ((c == b'.') || ((c == b'_') || (c == b'-')))))

-- `/[\u0000-\u0008\u000b\u000c\u000e-\u001f\u007f]/.test(s)`
unfoldable pub has_control : Text → Bool
has_control = any (λ c. leb c 8 || ((c == 11) || ((c == 12) || (in_range 14 31 c || (c == 127)))))

unfoldable pub require_record : Option Value → Text → Result Text Fields
require_record (some (obj fs)) location = ok fs
require_record _ location = err (location ++ lit " must be an object")

-- the first key that is not among `keys`; `Object.keys` has numbers first, which only matters for the
-- key that the message names
unfoldable pub unexpected_key : Fields → List Text → Option Text
unexpected_key end keys = none
unexpected_key (field k v fs) keys =
    let later = unexpected_key fs keys in if includes keys k then later else some k

-- An empty key is falsy, so it ends the search with no error.
unfoldable pub assert_only_keys : Fields → List Text → Text → Result Text (Unit {0})
unfolding unexpected_key
assert_only_keys fs keys location = elim (unexpected_key fs keys) [
  | none ↦ ok tt
  | some [] ↦ ok tt
  | some (c ∷ k) ↦ err (location ++ (lit " contains unknown field " ++ c ∷ k))
]

abbrev pub require_text : Text → Text → Result Text Text
require_text [] location = err (location ++ lit " is required")
require_text (c ∷ s) location = ok (c ∷ s)

unfoldable pub require_string : Option Value → Text → Result Text Text
require_string (some (str s)) location = require_text (trim s) location
require_string _ location = err (location ++ lit " is required")

-- `if (!test(s)) throw new Error(...)`, and the value otherwise
abbrev pub accept : Bool → Text → Text → Result Text Text
accept true s location = ok s
accept false s location = err (location ++ lit " is invalid")

-- `requireString(v, location)`, then `if (!test(s)) throw`
unfoldable pub require_matching : (Text → Bool) → Option Value → Text → Result Text Text
unfolding require_string
require_matching test v location = do s ← require_string v location; accept (test s) s location

unfoldable pub require_username : Option Value → Text → Result Text Text
unfolding require_matching is_username
require_username v location = require_matching is_username v location

unfoldable pub require_timestamp : Runtime → Option Value → Text → Result Text Text
unfolding require_matching
require_timestamp r v location = require_matching r.is_date v location

abbrev pub max_safe_integer : ℕ
max_safe_integer = 9007199254740991

unfoldable pub require_positive_integer : Option Value → Text → Result Text ℕ
require_positive_integer (some (num (nat n))) location =
    if leb 1 n && leb n max_safe_integer
    then ok n
    else err (location ++ lit " must be a positive integer")
require_positive_integer _ location = err (location ++ lit " must be a positive integer")

-- `requireDisplayString(v, location, max_length, allow_empty)`
unfoldable pub require_display_string :
    Option Value → Text → (max_length : ℕ) → (allow_empty : Bool) → Result Text Text
unfolding has_control
require_display_string (some (str s)) location max_length allow_empty =
    let text = trim s in
    if not allow_empty && is_empty text
    then err (location ++ lit " is required")
    else accept (not (ltb max_length (length text) || has_control text)) text location
require_display_string _ location max_length allow_empty = err (location ++ lit " is required")

abbrev pub is_http : Option Text → Bool
is_http none = false
is_http (some p) = (p == lit "http:") || (p == lit "https:")

-- the checks of a string that is there
unfoldable pub http_url : Runtime → Option Value → Text → Result Text (Option Text)
unfolding require_string
http_url r v location = do
  s ← require_string v location
  s ← accept (leb (length s) 2048) s location
  throw_if (not (is_http (r.url_protocol s))) (location ++ lit " must use HTTP or HTTPS")
  ok (some s)

unfoldable pub parse_optional_http_url : Runtime → Option Value → Text → Result Text (Option Text)
unfolding http_url
parse_optional_http_url r none location = ok none
parse_optional_http_url r (some null) location = ok none
parse_optional_http_url r (some (str [])) location = ok none
parse_optional_http_url r v location = http_url r v location
