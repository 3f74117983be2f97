-- ===== src/Base/Text.antt =====
-- JavaScript strings as lists of UTF-16 code units, and the string and array methods of the
-- language that the components use.
pub mod Words
pub mod Sorting
pub mod Search
pub mod Trimming
use Prim.Native.Char.{code}
use Prim.Native.String
use Prim.Native.String.{String}
use Prim.Native.Nat.{ℕ, zero, suc, ◌+◌}
use mathlib.Core.Path.{◌≡◌, refl}
use mathlib.Core.Logic.{◌↔◌}
use mathlib.Core.Bool.{Bool, true, false, ◌&&◌, ◌||◌, not}
use mathlib.Core.Option.{Option, none, some}
use mathlib.Core.List.{List, [], ◌∷◌, ◌++◌, reverse}
use native.Mathlib.Omega.{arith}
use id_jag_the_hard_way.Base.Tests.{Eq, nat_eq, ◌==◌, if◌then◌else◌, nat_beq, ltb, leb}
use id_jag_the_hard_way.Base.Lists.{length, take, drop, includes, keep_if, is_empty}

abbrev pub Text : Type 0
Text = List ℕ

-- A literal of the source, which holds characters of the basic plane only.
abbrev pub lit : String → Text
lit String.[] = []
lit (String.◌∷◌ c s) = code c ∷ lit s

unfoldable pub text_beq : Text → Text → Bool
text_beq [] [] = true
text_beq (a ∷ s) (b ∷ t) = nat_beq a b && text_beq s t
text_beq _ _ = false

pub text_beq_iff : (s t : Text) → (text_beq s t ≡ true) ↔ (s ≡ t)
unfolding text_beq
text_beq_iff [] [] = ground arith
text_beq_iff [] (b ∷ t) = ground arith
text_beq_iff (a ∷ s) [] = ground arith
text_beq_iff (a ∷ s) (b ∷ t) = ground (arith, text_beq_iff s t)

instance abbrev pub text_eq : Eq Text
text_eq = record { beq = text_beq; beq_iff = text_beq_iff }

-- `s.startsWith(p)`
unfoldable pub starts_with : Text → Text → Bool
starts_with s [] = true
starts_with [] (b ∷ p) = false
starts_with (a ∷ s) (b ∷ p) = nat_beq a b && starts_with s p

-- `s.indexOf(p)`, with -1 as `none`
unfoldable pub index_of : Text → Text → Option ℕ
unfolding starts_with
index_of [] p = if is_empty p then some 0 else none
index_of (a ∷ s) p =
    let later = index_of s p in
    if starts_with (a ∷ s) p then some 0 else elim later [ none ↦ none | some i ↦ some (i + 1) ]

-- The white space and line terminators of `\s` and `trim`.
unfoldable pub is_space : ℕ → Bool
is_space c =
    leb 9 c && leb c 13
    || includes (32 ∷ 160 ∷ 0x1680 ∷ 0x2028 ∷ 0x2029 ∷ 0x202f ∷ 0x205f ∷ 0x3000 ∷ 0xfeff ∷ []) c
    || leb 0x2000 c && leb c 0x200a

unfoldable pub trim_start : Text → Text
unfolding is_space
trim_start [] = []
trim_start (c ∷ s) = let rest = trim_start s in if is_space c then rest else c ∷ s

unfoldable pub trim_end : Text → Text
unfolding is_space
trim_end [] = []
trim_end (c ∷ s) = let rest = trim_end s in if is_space c && is_empty rest then [] else c ∷ rest

-- `s.trim()`
unfoldable pub trim : Text → Text
unfolding trim_start trim_end
trim s = trim_end (trim_start s)

-- The loop of `s.split(/\s+/)`: the pieces that remain, and whether a separator is being read.
unfoldable pub split_from : Bool → Text → Text → List Text
unfolding is_space
split_from gap cur [] = cur ∷ []
split_from true cur (c ∷ s) =
    let inside = split_from true [] s in
    let starts = split_from false (c ∷ []) s in if is_space c then inside else starts
split_from false cur (c ∷ s) =
    let closed = cur ∷ split_from true [] s in
    let longer = split_from false (cur ++ c ∷ []) s in if is_space c then closed else longer

-- `s.split(/\s+/)`
unfoldable pub split_spaces : Text → List Text
unfolding split_from
split_spaces s = split_from false [] s

-- `s.split(c)` at one character
unfoldable pub split_at_from : ℕ → Text → Text → List Text
split_at_from sep cur [] = cur ∷ []
split_at_from sep cur (c ∷ s) =
    let closed = cur ∷ split_at_from sep [] s in
    let longer = split_at_from sep (cur ++ c ∷ []) s in if c == sep then closed else longer

-- `filter(Boolean)`
unfoldable pub nonempty : List Text → List Text
nonempty xs = keep_if (λ w. not (is_empty w)) xs

-- `[...new Set(xs)]`: the first of each
unfoldable pub unique_from : List Text → List Text → List Text
unique_from seen [] = []
unique_from seen (x ∷ xs) =
    let skipped = unique_from seen xs in
    let taken = x ∷ unique_from (x ∷ seen) xs in if includes seen x then skipped else taken

unfoldable pub unique : List Text → List Text
unfolding unique_from
unique xs = unique_from [] xs

-- `xs.join(sep)`
unfoldable pub join : Text → List Text → Text
join sep [] = []
join sep (x ∷ []) = x
join sep (x ∷ y ∷ ys) = x ++ (sep ++ join sep (y ∷ ys))

-- `s.trim().split(/\s+/).filter(Boolean)`
unfoldable pub words : Text → List Text
words s = nonempty (split_spaces (trim s))

-- The order of code units, by which `sort()` compares.
unfoldable pub text_leb : Text → Text → Bool
text_leb [] t = true
text_leb (a ∷ s) [] = false
text_leb (a ∷ s) (b ∷ t) = if ltb a b then true else nat_beq a b && text_leb s t

unfoldable pub insert : Text → List Text → List Text
unfolding text_leb
insert x [] = x ∷ []
insert x (y ∷ ys) = if text_leb x y then x ∷ y ∷ ys else y ∷ insert x ys

-- `xs.sort()`
unfoldable pub sort : List Text → List Text
unfolding insert
sort [] = []
sort (x ∷ xs) = insert x (sort xs)

words_test : split_spaces (lit " a  bc ") ≡ [] ∷ lit "a" ∷ lit "bc" ∷ [] ∷ []
unfolding split_spaces
words_test = refl

trim_test : trim (lit "  a b ") ≡ lit "a b"
unfolding trim
trim_test = refl

index_test : index_of (lit "d:role.r") (lit ":role.") ≡ some 1
unfolding index_of
index_test = refl

sort_test : sort (unique (lit "b" ∷ lit "a" ∷ lit "b" ∷ [])) ≡ lit "a" ∷ lit "b" ∷ []
unfolding sort unique text_beq
sort_test = refl
