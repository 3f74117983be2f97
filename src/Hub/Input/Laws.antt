-- ===== src/Hub/Input/Laws.antt =====
-- Each check accepts its own result again, unchanged.
use id_jag_the_hard_way.Base.{
  ℕ, ◌≡◌, ◌≤◌, refl, sym, ◌∙◌, subst, Bool, true, false, not, ◌&&◌, ◌||◌, Option, none, some, [],
  ◌∷◌, inl, inr, ltb, leb, length, is_empty, Bool-cases, ok, arith, ok-injective, >>=-eq-ok,
  throw_if, throw_if-eq-ok, err-eq-ok, le→leb,
}
use id_jag_the_hard_way.Base.Text.{Text, trim}
use id_jag_the_hard_way.Base.Text.Trimming.{trim_twice}
use id_jag_the_hard_way.Base.Json.{Value, nat, null, bool, num, str, arr, obj}
use id_jag_the_hard_way.Hub.Input.{
  Runtime, accept, require_text, require_string, require_matching, require_positive_integer,
  require_display_string, has_control, http_url, is_http, parse_optional_http_url,
}

require_text-eq-ok :
    (s location : Text) {t : Text}
    → require_text s location ≡ ok t
    → (s ≡ t) × (is_empty t ≡ false) × ((l : Text) → require_text t l ≡ ok t)
require_text-eq-ok [] location h = cc
require_text-eq-ok (c ∷ s) location h =
    let e = ok-injective h in
    subst (λ t. ((c ∷ s) ≡ t) × (is_empty t ≡ false) × ((l : Text) → require_text t l ≡ ok t)) e
      (refl, refl, λ l. refl)

-- a value that `require_string` gives back
pub record IsString (s : Text) : Type 0 where
  pub trimmed : trim s ≡ s
  pub nonempty : is_empty s ≡ false
  pub returned : (location : Text) → require_string (some (str s)) location ≡ ok s

pub require_string-IsString :
    (v : Option Value) (location : Text) {t : Text} → require_string v location ≡ ok t → IsString t
unfolding require_string
require_string-IsString (some (str s)) location {t} h =
    let (e, filled, again) = require_text-eq-ok (trim s) location h in
    let trimmed : trim t ≡ t = subst (λ t. trim t ≡ t) e (trim_twice s) in
    record { trimmed = trimmed; nonempty = filled; returned = λ l. rw trimmed (again l) }
require_string-IsString none location h = cc
require_string-IsString (some null) location h = cc
require_string-IsString (some (bool b)) location h = cc
require_string-IsString (some (num b)) location h = cc
require_string-IsString (some (arr b)) location h = cc
require_string-IsString (some (obj b)) location h = cc

accept-eq-ok :
    (b : Bool) (s location : Text) {t : Text} → accept b s location ≡ ok t → (b ≡ true) × (s ≡ t)
accept-eq-ok true s location h = (refl, ok-injective h)
accept-eq-ok false s location h = cc

-- a value that `require_matching` gives back
pub record IsMatching (test : Text → Bool) (s : Text) : Type 0 where
  pub is_string : IsString s
  pub fits : test s ≡ true
  pub returned : (location : Text) → require_matching test (some (str s)) location ≡ ok s

pub require_matching-IsMatching :
    (test : Text → Bool) (v : Option Value) (location : Text) {t : Text}
    → require_matching test v location ≡ ok t
    → IsMatching test t
unfolding require_matching
require_matching-IsMatching test v location {t} h =
    let (s, e, rest) = >>=-eq-ok (require_string v location) _ h in
    let is_string = require_string-IsString v location e in
    let (fits, same) = accept-eq-ok (test s) s location rest in
    subst (IsMatching test) same (record {
      is_string = is_string;
      fits = fits;
      returned = λ l. rw (is_string.returned l, fits) refl;
    })

pub require_matching-eq-trim :
    (test : Text → Bool) (s location : Text) {t : Text}
    → require_matching test (some (str s)) location ≡ ok t
    → t ≡ trim s
unfolding require_matching require_string
require_matching-eq-trim test s location h =
    let (u, e, rest) = >>=-eq-ok (require_text (trim s) location) _ h in
    sym (accept-eq-ok (test u) u location rest).1 ∙ sym (require_text-eq-ok (trim s) location e).0

pub require_positive_integer-eq-ok :
    (v : Option Value) (location : Text) {n : ℕ}
    → require_positive_integer v location ≡ ok n
    → (1 ≤ n) × ((l : Text) → require_positive_integer (some (num (nat n))) l ≡ ok n)
unfolding require_positive_integer
require_positive_integer-eq-ok (some (num (nat m))) location {n} h =
    let both : ((leb 1 m && leb m 9007199254740991) ≡ true) × (m ≡ n) = ground arith in
    subst (λ n. (1 ≤ n) × ((l : Text) → require_positive_integer (some (num (nat n))) l ≡ ok n))
      both.1 (ground (arith, both.0), λ l. rw both.0 refl)
require_positive_integer-eq-ok v location h = cc

-- a value that `require_display_string` gives back
pub record IsDisplay (max_length : ℕ) (allow_empty : Bool) (s : Text) : Type 0 where
  pub trimmed : trim s ≡ s
  pub nonempty : allow_empty ≡ false → is_empty s ≡ false
  pub bounded : length s ≤ max_length
  pub no_control : has_control s ≡ false

pub require_display_string-IsDisplay :
    (v : Option Value) (location : Text) (max_length : ℕ) (allow_empty : Bool) {t : Text}
    → require_display_string v location max_length allow_empty ≡ ok t
    → IsDisplay max_length allow_empty t
unfolding require_display_string
require_display_string-IsDisplay (some (str s)) location n e {t} h =
    elim (Bool-cases (not e && is_empty (trim s))) [
      | inl c ↦ absurd (err-eq-ok (rw c at h))
      | inr c ↦ display (ground (arith, c)) (rw c at h)
    ]
  where
    fine : Bool
    fine = not (ltb n (length (trim s)) || has_control (trim s))

    display :
        (e ≡ false → is_empty (trim s) ≡ false)
        → accept fine (trim s) location ≡ ok t
        → IsDisplay n e t
    display filled h =
        let (fits, same) = accept-eq-ok fine (trim s) location h in
        subst (IsDisplay n e) same (record {
          trimmed = trim_twice s;
          nonempty = filled;
          bounded = ground (arith, fits);
          no_control = ground (arith, fits);
        })
require_display_string-IsDisplay v location n e h = cc

-- ... and such a value is accepted.
pub require_display_string_self :
    (s location : Text) (max_length : ℕ) (allow_empty : Bool)
    → IsDisplay max_length allow_empty s
    → require_display_string (some (str s)) location max_length allow_empty ≡ ok s
unfolding require_display_string
require_display_string_self s location n e h =
    rw h.trimmed (ground (arith, h.nonempty, h.bounded, h.no_control))

-- an optional URL as `parseOptionalHttpUrl` gives it back
pub record IsHttpUrl (r : Runtime) (u : Text) : Type 0 where
  pub is_string : IsString u
  pub bounded : length u ≤ 2048
  pub http : is_http (r.url_protocol u) ≡ true

-- no other value than `undefined` is read as none
abbrev pub IsUrl : Runtime → Option Text → Type 0
IsUrl r none = Unit
IsUrl r (some u) = IsHttpUrl r u

http_url-IsUrl :
    (r : Runtime) (v : Option Value) (location : Text) {u : Option Text}
    → http_url r v location ≡ ok u
    → IsUrl r u
unfolding http_url
http_url-IsUrl r v location {u} h =
    let (s, e, h) = >>=-eq-ok (require_string v location) _ h in
    let (t, f, h) = >>=-eq-ok (accept (leb (length s) 2048) s location) _ h in
    let (short, same) = accept-eq-ok _ s location f in
    let (_, g, h) = >>=-eq-ok (throw_if (not (is_http (r.url_protocol t))) _) _ h in
    let is_string = require_string-IsString v location e in
    subst (IsUrl r) (ok-injective h) (
      subst (IsHttpUrl r) same (record {
        is_string = is_string;
        bounded = ground (arith, short);
        http =
            subst (λ t. is_http (r.url_protocol t) ≡ true) (sym same)
              (ground (arith, throw_if-eq-ok _ _ g));
      }))

pub parse_optional_http_url-IsUrl :
    (r : Runtime) (v : Option Value) (location : Text) {u : Option Text}
    → parse_optional_http_url r v location ≡ ok u
    → IsUrl r u
unfolding parse_optional_http_url
parse_optional_http_url-IsUrl r none location h = subst (IsUrl r) (ok-injective h) tt
parse_optional_http_url-IsUrl r (some null) location h = subst (IsUrl r) (ok-injective h) tt
parse_optional_http_url-IsUrl r (some (str [])) location h = subst (IsUrl r) (ok-injective h) tt
parse_optional_http_url-IsUrl r (some (str (c ∷ s))) location h =
    http_url-IsUrl r (some (str (c ∷ s))) location h
parse_optional_http_url-IsUrl r v location h = http_url-IsUrl r v location h

abbrev pub text_value : Option Text → Option Value
text_value none = none
text_value (some s) = some (str s)

pub parse_optional_http_url_self :
    (r : Runtime) (u : Option Text) (location : Text)
    → IsUrl r u
    → parse_optional_http_url r (text_value u) location ≡ ok u
unfolding parse_optional_http_url
parse_optional_http_url_self r none location h = refl
parse_optional_http_url_self r (some []) location h = absurd (ground (arith, h.is_string.nonempty))
parse_optional_http_url_self r (some (c ∷ s)) location h =
    unfold http_url in rw (h.is_string.returned location, le→leb _ _ h.bounded) (rw h.http refl)
