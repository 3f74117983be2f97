-- ===== src/Base/Text/Search.antt =====
-- Where a text begins with another or holds one.
use Prim.Native.Nat.{ℕ, zero, suc, ◌+◌, ◌<◌}
use mathlib.Core.Path.{◌≡◌, refl, ap}
use mathlib.Core.Logic.{◌≢◌, inl, inr}
use mathlib.Core.Bool.{true}
use mathlib.Core.Option.{some}
use mathlib.Core.List.{[], ◌∷◌, ◌++◌}
use native.Mathlib.Nat.{zero-add, suc-add}
use native.Mathlib.Omega.{arith}
use id_jag_the_hard_way.Base.Tests.{Bool-cases, Option-cases}
use id_jag_the_hard_way.Base.Lists.{length, take, drop}
use id_jag_the_hard_way.Base.Text.{Text, starts_with, index_of}

pub starts_with_sound : (s p : Text) → starts_with s p ≡ true → s ≡ p ++ drop (length p) s
unfolding starts_with
starts_with_sound s [] e = refl
starts_with_sound [] (b ∷ p) e = cc
starts_with_sound (a ∷ s) (b ∷ p) e = ground (arith, starts_with_sound s p)

pub starts_with-append : (p s : Text) → starts_with (p ++ s) p ≡ true
unfolding starts_with
starts_with-append [] s = refl
starts_with-append (a ∷ p) s = ground (arith, starts_with-append p s)

pub index_of_sound :
    (s p : Text) {i : ℕ} → index_of s p ≡ some i → s ≡ take i s ++ (p ++ drop (i + length p) s)
unfolding index_of
index_of_sound [] [] {i} e = let z : 0 ≡ i = ground arith in rw (← z)
index_of_sound [] (b ∷ p) e = cc
index_of_sound (a ∷ s) p {i} e = elim (Bool-cases (starts_with (a ∷ s) p)) [
  | inl here ↦ let z : 0 ≡ i = ground arith in rw (← z, zero-add) (starts_with_sound (a ∷ s) p here)
  | inr other ↦ elim (Option-cases (index_of s p)) [
    | inl missed ↦ absurd (ground arith)
    | inr (j, found) ↦
        let z : suc j ≡ i = ground arith in
        rw (← z, suc-add) (ap (◌∷◌ a) (index_of_sound s p found))
  ]
]

pub take_pos : (i : ℕ) (s : Text) → i ≢ 0 → s ≢ [] → take i s ≢ []
take_pos zero s h n = absurd (h refl)
take_pos (suc i) [] h n = absurd (n refl)
take_pos (suc i) (c ∷ s) h n = cc

pub drop_pos : (i : ℕ) (s : Text) → i < length s → drop i s ≢ []
drop_pos zero [] h = absurd (omega arith)
drop_pos zero (c ∷ s) h = cc
drop_pos (suc i) [] h = absurd (omega arith)
drop_pos (suc i) (c ∷ s) h = drop_pos i s (omega arith)
