-- ===== src/Base/Dict.antt =====
-- JavaScript's `Map` with string keys: entries in insertion order.
use mathlib.Core.Path.{◌≡◌, refl, subst}
use mathlib.Core.Logic.{inl, inr}
use mathlib.Core.Bool.{Bool, true}
use mathlib.Core.Option.{Option, none, some}
use mathlib.Core.List.{List, [], ◌∷◌, map}
use native.Mathlib.Omega.{arith}
use id_jag_the_hard_way.Base.Tests.{◌==◌, Bool-cases, if◌then◌else◌}
use id_jag_the_hard_way.Base.Text.{Text, text_eq, text_beq, text_beq_iff}

abbrev pub Dict {ℓ} : Type ℓ → Type ℓ
Dict V = List (Text × V)

module _ {ℓ} {V : Type ℓ} where
  -- `m.get(k)`
  unfoldable pub get : Dict V → Text → Option V
  get [] k = none
  get ((j, v) ∷ d) k = if j == k then some v else get d k

  -- `m.set(k, v)`: in place for a key that is there, else at the end
  unfoldable pub set : Dict V → Text → V → Dict V
  set [] k v = (k, v) ∷ []
  set ((j, w) ∷ d) k v = if j == k then (k, v) ∷ d else (j, w) ∷ set d k v

  -- `m.delete(k)`
  unfoldable pub remove : Dict V → Text → Dict V
  remove [] k = []
  remove ((j, w) ∷ d) k = let rest = remove d k in if j == k then rest else (j, w) ∷ rest

  -- `for (const [k, v] of m) if (!p(v)) m.delete(k)`
  unfoldable pub keep : (V → Bool) → Dict V → Dict V
  keep p [] = []
  keep p ((j, w) ∷ d) = let rest = keep p d in if p w then (j, w) ∷ rest else rest

  -- `[...m.values()]`
  abbrev pub values : Dict V → List V
  values = map (λ e. e.1)

  pub get-set :
      (d : Dict V) (k j : Text) (v : V) → get (set d k v) j ≡ (if k == j then some v else get d j)
  unfolding get set
  get-set [] k j v = refl
  get-set ((i, w) ∷ d) k j v =
      ground (arith, get-set d k j v, text_beq_iff i k, text_beq_iff i j, text_beq_iff k j)

  pub get-remove :
      (d : Dict V) (k j : Text) → get (remove d k) j ≡ (if k == j then none else get d j)
  unfolding get remove
  get-remove [] k j = ground arith
  get-remove ((i, w) ∷ d) k j =
      ground (arith, get-remove d k j, text_beq_iff i k, text_beq_iff i j, text_beq_iff k j)

pub text_beq_refl : (k : Text) → text_beq k k ≡ true
text_beq_refl k = (text_beq_iff k k).1 refl

module _ {ℓ} {V : Type ℓ} where
  pub get-set_self : (d : Dict V) (k : Text) (v : V) → get (set d k v) k ≡ some v
  get-set_self d k v = simp (get-set, text_beq_refl)

  pub get-remove_self : (d : Dict V) (k : Text) → get (remove d k) k ≡ none
  get-remove_self d k = simp (get-remove, text_beq_refl)

module _ {ℓ κ} {V : Type ℓ} (P : Text → V → Type κ) where
  -- A property of every entry.
  abbrev pub Entries : Dict V → Type κ
  Entries [] = Unit
  Entries (e ∷ d) = P e.0 e.1 × Entries d

  pub Entries-get : (d : Dict V) (k : Text) (v : V) → Entries d → get d k ≡ some v → P k v
  unfolding get
  Entries-get [] k v h e = cc
  Entries-get ((j, w) ∷ d) k v h e = elim (Bool-cases (j == k)) [
    | inl here ↦ subst (P k) (stored here) (subst (λ i. P i w) ((text_beq_iff j k).0 here) h.0)
    | inr later ↦ Entries-get d k v h.1 (rw later at e)
  ]
    where
      stored : (j == k) ≡ true → w ≡ v
      stored here = ground arith

  pub Entries-set : (d : Dict V) (k : Text) (v : V) → Entries d → P k v → Entries (set d k v)
  unfolding set
  Entries-set [] k v h p = (p, tt)
  Entries-set ((j, w) ∷ d) k v h p = ground (arith, Entries-set d k v h.1 p)

  pub Entries-remove : (d : Dict V) (k : Text) → Entries d → Entries (remove d k)
  unfolding remove
  Entries-remove [] k h = tt
  Entries-remove ((j, w) ∷ d) k h = ground (arith, Entries-remove d k h.1)

  pub Entries-keep : (p : V → Bool) (d : Dict V) → Entries d → Entries (keep p d)
  unfolding keep
  Entries-keep p [] h = tt
  Entries-keep p ((j, w) ∷ d) h = ground (arith, Entries-keep p d h.1)

pub Entries-map {ℓ κ} :
    {V : Type ℓ} {P Q : Text → V → Type κ} (f : (k : Text) (v : V) → P k v → Q k v) (d : Dict V)
    → Entries P d
    → Entries Q d
Entries-map f [] h = tt
Entries-map f ((k, v) ∷ d) h = (f k v h.0, Entries-map f d h.1)

module _ {ℓ} {V : Type ℓ} where
  pub keep_sound : (p : V → Bool) (d : Dict V) → Entries (λ k v. p v ≡ true) (keep p d)
  unfolding keep
  keep_sound p [] = tt
  keep_sound p ((j, w) ∷ d) = ground (arith, keep_sound p d)

pub ruleset dict_laws = (get-set, get-remove)
