-- ===== src/Base/Ensures.antt =====
-- What holds of the value of code that may throw, when it does not.
use mathlib.Core.Path.{◌≡◌, refl, subst}
use id_jag_the_hard_way.Base.Results.{Result, ok, err, ◌>>=◌}

pub data Ensures {E A : Type 0} (P : A → Type 0) : Result E A → Type 0 where
  on_ok : {a : A} → P a → Ensures P (ok a)
  on_err : {e : E} → Ensures P (err e)

module _ {E A B : Type 0} where
  pub Ensures-bind :
      {Q : A → Type 0} {P : B → Type 0} (m : Result E A) (k : A → Result E B)
      → Ensures Q m
      → ((a : A) → Q a → Ensures P (k a))
      → Ensures P (m >>= k)
  Ensures-bind (ok a) k (on_ok q) h = h a q
  Ensures-bind (err e) k (on_err) h = on_err

module _ {E A : Type 0} {P : A → Type 0} where
  pub Ensures-ok : (m : Result E A) {a : A} → Ensures P m → m ≡ ok a → P a
  Ensures-ok (ok b) (on_ok p) e = subst P (cc) p
  Ensures-ok (err b) (on_err) e = cc

  pub Ensures-intro : (m : Result E A) → ((a : A) → m ≡ ok a → P a) → Ensures P m
  Ensures-intro (ok a) h = on_ok (h a refl)
  Ensures-intro (err e) h = on_err

module _ {E A B : Type 0} {P : B → Type 0} where
  -- a step whose value satisfies `Q`
  pub reads :
      {Q : A → Type 0} (m : Result E A) (k : A → Result E B)
      → ((a : A) → m ≡ ok a → Q a)
      → ((a : A) → Q a → Ensures P (k a))
      → Ensures P (m >>= k)
  reads m k q rest = Ensures-bind m k (Ensures-intro m q) rest

  -- a step of which nothing is kept
  pub passes :
      (m : Result E A) (k : A → Result E B) → ((a : A) → Ensures P (k a)) → Ensures P (m >>= k)
  passes m k rest =
      Ensures-bind {Q = λ a. Unit {0}} m k (Ensures-intro m (λ a _. tt)) (λ a _. rest a)
