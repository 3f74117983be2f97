-- ===== src/Gateway/Athenz/Claimed.antt =====
-- What the claims of a token say of its scopes, its audiences and its expiry, and that athenz.ts
-- reads them so.
use id_jag_the_hard_way.Base.{
  ℕ, ◌*◌, true, false, not, Option, some, inl, inr, ◌⊎◌, Option-cases, Bool-cases, is_empty,
  err-eq-ok, List, [], ◌∷◌, map, Member, ◌↔◌, ◌≢◌, ◌≡◌, refl, ok, ok-injective, sym, ap, subst, ◌∙◌,
  arith,
}
use id_jag_the_hard_way.Base.Text.{Text, lit, words, trim, join, unique, sort, nonempty}
use id_jag_the_hard_way.Base.Text.Sorting.{Member-sort, Member-unique}
use id_jag_the_hard_way.Gateway.Athenz.Scopes.{scope_values}
use id_jag_the_hard_way.Base.Text.Words.{blank}
use id_jag_the_hard_way.Base.Json.{
  nat, thousandths, negative, Value, num, str, arr, Items, nil, cons, Fields, property,
}
use id_jag_the_hard_way.Gateway.Athenz.Grants.{
  token_scopes, token_audiences, claimed_scopes, claimed_audiences, all_strings, exp_ms,
}

-- the texts of an array of texts
abbrev pub AreTexts : Items → List Text → Type 0
AreTexts nil [] = Unit
AreTexts (cons (str s) vs) (t ∷ ts) = (s ≡ t) × AreTexts vs ts
AreTexts _ _ = ⊥

-- the texts of a claim: a text, or an array of texts
pub data ClaimsTexts : Option Value → List Text → Type 0 where
  one_text : (s : Text) → ClaimsTexts (some (str s)) (s ∷ [])
  texts : (vs : Items) (ss : List Text) → AreTexts vs ss → ClaimsTexts (some (arr vs)) ss

-- The scopes are the words of the texts of the claim `scp`, or of the claim `scope` where `scp` gives
-- none.
pub data ClaimsScopes (claims : Fields) (scopes : List Text) : Type 0 where
  by_scp :
      (ss : List Text)
      → ClaimsTexts (property claims (lit "scp")) ss
      → ((w : Text) → Member w scopes ↔ Member w (words (join blank ss)))
      → scopes ≢ []
      → ClaimsScopes claims scopes
  by_scope :
      (ss : List Text)
      → ((ts : List Text)
          → ClaimsTexts (property claims (lit "scp")) ts
          → (w : Text) → ¬ Member w (words (join blank ts)))
      → ClaimsTexts (property claims (lit "scope")) ss
      → ((w : Text) → Member w scopes ↔ Member w (words (join blank ss)))
      → scopes ≢ []
      → ClaimsScopes claims scopes

-- The audiences are the texts of the claim, trimmed, that are not empty; there is one at least.
pub record ClaimsAudiences (claim : Option Value) (audiences : List Text) : Type 0 where
  pub given : List Text
  pub gives : ClaimsTexts claim given
  pub same : (w : Text) → Member w audiences ↔ (Member w (map trim given) × (w ≢ []))
  pub some_audience : audiences ≢ []

-- a number of seconds, in milliseconds; what is negative is over, as 0 is
pub data Expires : Option Value → ℕ → Type 0 where
  seconds : (n : ℕ) → Expires (some (num (nat n))) (n * 1000)
  fraction : (thousandths_of : ℕ) → Expires (some (num (thousandths thousandths_of))) thousandths_of
  over : Expires (some (num negative)) 0

pub exp_ms_sound : (o : Option Value) {n : ℕ} → exp_ms o ≡ ok n → Expires o n
unfolding exp_ms
exp_ms_sound (some (num (nat n))) h = subst (Expires _) (ok-injective h) (seconds n)
exp_ms_sound (some (num (thousandths n))) h = subst (Expires _) (ok-injective h) (fraction n)
exp_ms_sound (some (num negative)) h = subst (Expires _) (ok-injective h) over
exp_ms_sound o h = absurd (cc h)

some_same : {A : Type 0} {a b : A} → some a ≡ some b → a ≡ b
some_same h = ground (arith, h)

all_strings_sound : (vs : Items) {ss : List Text} → all_strings vs ≡ some ss → AreTexts vs ss
unfolding all_strings
all_strings_sound nil h = subst (AreTexts nil) (some_same h) tt
all_strings_sound (cons (str s) vs) {ss} h = elim (Option-cases (all_strings vs)) [
  | inl e ↦ absurd (cc (rw e at h))
  | inr (ts, e) ↦
      subst (AreTexts (cons (str s) vs)) (some_same (rw e at h)) (refl, all_strings_sound vs e)
]
all_strings_sound (cons v vs) h = absurd (cc h)

all_strings_complete : (vs : Items) (ss : List Text) → AreTexts vs ss → all_strings vs ≡ some ss
unfolding all_strings
all_strings_complete nil [] h = refl
all_strings_complete (cons (str s) vs) (t ∷ ts) h =
    rw (all_strings_complete vs ts h.1) (ap (λ s. some (s ∷ ts)) h.0)
all_strings_complete nil (t ∷ ts) h = absurd h
all_strings_complete (cons (str s) vs) [] h = absurd h
all_strings_complete (cons v vs) ss h = absurd h

claimed_scopes-texts :
    (o : Option Value) (ss : List Text)
    → ClaimsTexts o ss
    → claimed_scopes o ≡ scope_values (join blank ss)
unfolding claimed_scopes join
claimed_scopes-texts o ss (one_text s) = refl
claimed_scopes-texts o ss (texts vs ts h) = rw (all_strings_complete vs ts h, claimed_scopes) refl

Member-scope_values : (w s : Text) → Member w (scope_values s) ↔ Member w (words s)
unfolding scope_values
Member-scope_values w s =
    ground (arith, Member-sort w (unique (words s)), Member-unique w (words s))

-- A claim that gives scopes has texts.
claimed_scopes_sound :
    (o : Option Value) → claimed_scopes o ≢ [] → (ss : List Text) × ClaimsTexts o ss
unfolding claimed_scopes
claimed_scopes_sound (some (str s)) h = (s ∷ [], one_text s)
claimed_scopes_sound (some (arr vs)) h = elim (Option-cases (all_strings vs)) [
  | inl e ↦ absurd (h (rw (e, claimed_scopes) refl))
  | inr (ss, e) ↦ (ss, texts vs ss (all_strings_sound vs e))
]
claimed_scopes_sound o h = absurd (h refl)

words_of_claim :
    (o : Option Value) (ss scopes : List Text) (w : Text)
    → ClaimsTexts o ss
    → claimed_scopes o ≡ scopes
    → Member w scopes ↔ Member w (words (join blank ss))
words_of_claim o ss scopes w h e =
    subst (λ scopes. Member w scopes ↔ Member w (words (join blank ss)))
      (sym (claimed_scopes-texts o ss h) ∙ e) (Member-scope_values w (join blank ss))

filled_ne : (ss : List Text) → not (is_empty ss) ≡ true → ss ≢ []
filled_ne [] h = absurd (cc h)
filled_ne (s ∷ ss) h = λ e. cc e

unfilled_nil : (ss : List Text) → not (is_empty ss) ≡ false → ss ≡ []
unfilled_nil [] h = refl
unfilled_nil (s ∷ ss) h = absurd (cc h)

pub token_scopes_sound :
    (claims : Fields) {scopes : List Text}
    → token_scopes claims ≡ ok scopes
    → ClaimsScopes claims scopes
unfolding token_scopes
token_scopes_sound claims {scopes} h =
    elim (Bool-cases (not (is_empty (claimed_scopes (property claims (lit "scp")))))) [
      | inl y ↦
          let e = ok-injective (rw y at h) in
          let filled = filled_ne (claimed_scopes (property claims (lit "scp"))) y in
          let (ss, given) = claimed_scopes_sound (property claims (lit "scp")) filled in
          by_scp ss given (λ w. words_of_claim _ ss scopes w given e)
            (subst (λ ss. ss ≢ []) e filled)
      | inr n ↦
          elim (Bool-cases (not (is_empty (claimed_scopes (property claims (lit "scope")))))) [
            | inl y ↦
                let e = ok-injective (rw y at (rw n at h)) in
                let filled = filled_ne (claimed_scopes (property claims (lit "scope"))) y in
                let none_there = unfilled_nil (claimed_scopes (property claims (lit "scp"))) n in
                let (ss, given) = claimed_scopes_sound (property claims (lit "scope")) filled in
                by_scope ss (λ ts given w m. (words_of_claim _ ts [] w given none_there).1 m) given
                  (λ w. words_of_claim _ ss scopes w given e) (subst (λ ss. ss ≢ []) e filled)
            | inr m ↦ absurd (err-eq-ok (rw m at (rw n at h)))
          ]
    ]

Member-nonempty : (w : Text) (xs : List Text) → Member w (nonempty xs) ↔ (Member w xs × (w ≢ []))
unfolding nonempty
Member-nonempty w [] = ground arith
Member-nonempty w ([] ∷ xs) = ground (arith, Member-nonempty w xs)
Member-nonempty w ((c ∷ x) ∷ xs) = (
  λ m. elim m [
    | inl e ↦ (inl e, λ n. cc (e ∙ n))
    | inr m ↦ let (k, n) = (Member-nonempty w xs).0 m in (inr k, n)
  ],
  λ h. elim h.0 [ inl e ↦ inl e | inr m ↦ inr ((Member-nonempty w xs).1 (m, h.1)) ],
)

audience_texts :
    (o : Option Value) → ClaimsTexts o (claimed_audiences o) ⊎ (claimed_audiences o ≡ [])
audience_texts (some (str s)) = inl (one_text s)
audience_texts (some (arr vs)) = elim (Option-cases (all_strings vs)) [
  | inl e ↦ inr (rw (e, claimed_audiences) refl)
  | inr (ss, e) ↦ inl (rw (e, claimed_audiences) (texts vs ss (all_strings_sound vs e)))
]
audience_texts o = inr refl

no_audiences : {given : List Text} → given ≡ [] → sort (unique (nonempty (map trim given))) ≡ []
unfolding sort unique nonempty
no_audiences e = ap (λ given. sort (unique (nonempty (map trim given)))) e

pub token_audiences_sound :
    (o : Option Value) {audiences : List Text}
    → token_audiences o true ≡ ok audiences
    → ClaimsAudiences o audiences
unfolding token_audiences
token_audiences_sound o {audiences} h =
    let normal = sort (unique (nonempty (map trim (claimed_audiences o)))) in
    elim (Bool-cases (not (is_empty normal))) [
      | inr n ↦ let b : is_empty normal ≡ true = ground (arith, n) in absurd (err-eq-ok (rw b at h))
      | inl y ↦
          let filled = filled_ne normal y in
          let b : is_empty normal ≡ false = ground (arith, y) in
          let e : normal ≡ audiences = ok-injective (rw b at h) in
          record {
            given = claimed_audiences o;
            gives = elim (audience_texts o) [
              | inl t ↦ t
              | inr e ↦ absurd (filled (no_audiences e))
            ];
            same = λ w.
                subst (λ as_. Member w as_ ↔ (Member w (map trim (claimed_audiences o)) × (w ≢ [])))
                  e
                  (ground (
                    arith,
                    Member-sort w (unique (nonempty (map trim (claimed_audiences o)))),
                    Member-unique w (nonempty (map trim (claimed_audiences o))),
                    Member-nonempty w (map trim (claimed_audiences o)),
                  ));
            some_audience = subst (λ as_. as_ ≢ []) e filled;
          }
    ]
