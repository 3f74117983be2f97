-- ===== src/Base/Options.antt =====
-- Optional values in sequence: a missing one ends the row.
use mathlib.Core.Path.{◌≡◌, refl}
use mathlib.Core.Logic.{◌↔◌, ◌≢◌}
use mathlib.Core.Bool.{Bool, true, false}
use mathlib.Core.Option.{Option, none, some}
use mathlib.Core.List.{[], ◌∷◌}
use native.Mathlib.Omega.{arith}
use id_jag_the_hard_way.Base.Tests.{◌==◌}
use id_jag_the_hard_way.Base.Text.{Text, text_eq, text_beq_iff}

infixl 5 ◌>>=◌ ◌>>◌
abbrev pub ◌>>=◌ {ℓ κ} : {A : Type ℓ} {B : Type κ} → Option A → (A → Option B) → Option B
none >>= f = none
some a >>= f = f a

abbrev pub ◌>>◌ {ℓ} : {B : Type ℓ} → Option (Unit {0}) → Option B → Option B
m >> k = m >>= λ _. k

abbrev pub guard : Bool → Option (Unit {0})
guard true = some tt
guard false = none

pub >>=-eq-some {ℓ κ} :
    {A : Type ℓ} {B : Type κ} (m : Option A) (f : A → Option B) {b : B}
    → (m >>= f) ≡ some b
    → (a : A) × (m ≡ some a) × (f a ≡ some b)
>>=-eq-some none f h = cc
>>=-eq-some (some a) f h = (a, refl, h)

-- An empty string is falsy.
abbrev pub truthy : Option Text → Option Text
truthy (some (c ∷ s)) = some (c ∷ s)
truthy _ = none

-- `o === t` for a text `t`
abbrev pub is_text : Option Text → Text → Bool
is_text none t = false
is_text (some s) t = s == t

pub is_text_iff : (o : Option Text) (t : Text) → (is_text o t ≡ true) ↔ (o ≡ some t)
is_text_iff none t = ground arith
is_text_iff (some s) t = ground (arith, text_beq_iff s t)

pub guard-bind-eq-some {ℓ} :
    {B : Type ℓ} (b : Bool) (m : Option B) {v : B}
    → (guard b >> m) ≡ some v
    → (b ≡ true) × (m ≡ some v)
guard-bind-eq-some true m h = (refl, h)
guard-bind-eq-some false m h = cc

pub truthy-eq-some : (o : Option Text) {t : Text} → truthy o ≡ some t → (o ≡ some t) × (t ≢ [])
truthy-eq-some none h = cc
truthy-eq-some (some []) h = cc
truthy-eq-some (some (c ∷ s)) h = ground arith
