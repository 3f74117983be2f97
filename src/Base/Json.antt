-- ===== src/Base/Json.antt =====
-- Values of type `unknown`, as `JSON.parse` returns them. `undefined` is `none` of an `Option`.
use Prim.Native.Nat.{ℕ}
use mathlib.Core.Bool.{Bool}
use mathlib.Core.Option.{Option, none, some}
use mathlib.Core.List.{List, [], ◌∷◌}
use id_jag_the_hard_way.Base.Tests.{◌==◌, if◌then◌else◌}
use id_jag_the_hard_way.Base.Text.{Text, text_eq}

-- A number: an integer from 0, a positive fraction in thousandths, a negative one, an infinite
-- one. Fractions finer than a thousandth are left out.
pub data Number : Type 0 where
  nat : ℕ → Number
  thousandths : ℕ → Number
  negative infinite : Number

mutual
  pub data Value : Type 0 where
    null : Value
    bool : Bool → Value
    num : Number → Value
    str : Text → Value
    arr : Items → Value
    obj : Fields → Value

  pub data Items : Type 0 where
    nil : Items
    cons : Value → Items → Items

  pub data Fields : Type 0 where
    end : Fields
    field : Text → Value → Fields → Fields

abbrev pub items : Items → List Value
items nil = []
items (cons v vs) = v ∷ items vs

abbrev pub fields : Fields → List (Text × Value)
fields end = []
fields (field k v fs) = (k, v) ∷ fields fs

-- `o.k` of a parsed object: the last field of that name
unfoldable pub property : Fields → Text → Option Value
property end k = none
property (field j v fs) k =
    let later = property fs k in
    elim later [ none ↦ if j == k then some v else none | some w ↦ some w ]

-- `typeof v === "string" ? v : undefined`
abbrev pub as_text : Option Value → Option Text
as_text (some (str s)) = some s
as_text _ = none
