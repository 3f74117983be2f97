-- ===== src/Base/Text/Trimming.antt =====
-- Trimming a second time changes nothing.
use Prim.Native.Nat.{ℕ}
use mathlib.Core.Path.{◌≡◌, refl}
use mathlib.Core.Logic.{inl, inr}
use mathlib.Core.Bool.{true, false, ◌&&◌}
use mathlib.Core.List.{[], ◌∷◌}
use id_jag_the_hard_way.Base.Tests.{Bool-cases}
use id_jag_the_hard_way.Base.Lists.{is_empty}
use id_jag_the_hard_way.Base.Text.{Text, is_space, trim_start, trim_end, trim}

trim_end_twice : (s : Text) → trim_end (trim_end s) ≡ trim_end s
unfolding trim_end
trim_end_twice [] = refl
trim_end_twice (c ∷ s) = elim (Bool-cases (is_space c && is_empty (trim_end s))) [
  | inl e ↦ rw e refl
  | inr e ↦ rw (e, trim_end_twice s) (rw e refl)
]

trim_end-cons : (c : ℕ) (s : Text) → is_space c ≡ false → trim_end (c ∷ s) ≡ c ∷ trim_end s
unfolding trim_end
trim_end-cons c s e = rw e refl

trim_start-cons : (c : ℕ) (s : Text) → is_space c ≡ false → trim_start (c ∷ s) ≡ c ∷ s
unfolding trim_start
trim_start-cons c s e = rw e refl

trim_start-space : (c : ℕ) (s : Text) → is_space c ≡ true → trim_start (c ∷ s) ≡ trim_start s
unfolding trim_start
trim_start-space c s e = rw e refl

trim_start_stable : (s : Text) → trim_start (trim_end (trim_start s)) ≡ trim_end (trim_start s)
trim_start_stable [] = unfold trim_start trim_end in refl
trim_start_stable (c ∷ s) = elim (Bool-cases (is_space c)) [
  | inl e ↦ rw (trim_start-space c s e) (trim_start_stable s)
  | inr e ↦ rw (trim_start-cons c s e, trim_end-cons c s e) (trim_start-cons c (trim_end s) e)
]

pub trim_twice : (s : Text) → trim (trim s) ≡ trim s
unfolding trim
trim_twice s = rw (trim_start_stable s) (trim_end_twice (trim_start s))
