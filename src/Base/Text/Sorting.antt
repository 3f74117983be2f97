-- ===== src/Base/Text/Sorting.antt =====
-- Sorting and removing repetitions: members, order, and lists that are left as they are.
use mathlib.Core.Path.{◌≡◌, refl, ap, ◌∙◌}
use mathlib.Core.Logic.{◌↔◌, ◌⊎◌}
use mathlib.Core.Bool.{true, false}
use mathlib.Core.List.{List, [], ◌∷◌}
use native.Mathlib.Omega.{arith}
use id_jag_the_hard_way.Base.Lists.{Member, NoDups, includes, includes_iff, All}
use id_jag_the_hard_way.Base.Text.{
  Text, text_eq, text_beq_iff, unique_from, unique, text_leb, insert, sort,
}

text_leb_total : (s t : Text) → text_leb s t ≡ false → text_leb t s ≡ true
unfolding text_leb
text_leb_total [] t h = cc h
text_leb_total (a ∷ s) [] h = refl
text_leb_total (a ∷ s) (b ∷ t) h = ground (arith, text_leb_total s t)

-- Each element is at most the next.
abbrev pub IsSorted : List Text → Type 0
IsSorted [] = Unit
IsSorted (x ∷ []) = Unit
IsSorted (x ∷ y ∷ ys) = (text_leb x y ≡ true) × IsSorted (y ∷ ys)

insert-IsSorted : (x : Text) (ys : List Text) → IsSorted ys → IsSorted (insert x ys)
unfolding insert
insert-IsSorted x [] h = tt
insert-IsSorted x (y ∷ []) h = ground (arith, text_leb_total x y)
insert-IsSorted x (y ∷ z ∷ zs) h =
    ground (arith, text_leb_total x y, insert-IsSorted x (z ∷ zs) h.1)

pub sort-IsSorted : (xs : List Text) → IsSorted (sort xs)
unfolding sort
sort-IsSorted [] = tt
sort-IsSorted (x ∷ xs) = insert-IsSorted x (sort xs) (sort-IsSorted xs)

pub sort_of_IsSorted : (xs : List Text) → IsSorted xs → sort xs ≡ xs
unfolding sort insert
sort_of_IsSorted [] h = refl
sort_of_IsSorted (x ∷ []) h = refl
sort_of_IsSorted (x ∷ y ∷ ys) h = ap (insert x) (sort_of_IsSorted (y ∷ ys) h.1) ∙ rw h.0

Member-insert : (a x : Text) (ys : List Text) → Member a (insert x ys) ↔ ((x ≡ a) ⊎ Member a ys)
unfolding insert
Member-insert a x [] = ground arith
Member-insert a x (y ∷ ys) = ground (arith, Member-insert a x ys)

pub Member-sort : (a : Text) (xs : List Text) → Member a (sort xs) ↔ Member a xs
unfolding sort
Member-sort a [] = ground arith
Member-sort a (x ∷ xs) = ground (arith, Member-insert a x (sort xs), Member-sort a xs)

insert-NoDups : (x : Text) (ys : List Text) → ¬ Member x ys → NoDups ys → NoDups (insert x ys)
unfolding insert
insert-NoDups x [] n h = (n, tt)
insert-NoDups x (y ∷ ys) n h = ground (arith, Member-insert y x ys, insert-NoDups x ys)

pub sort-NoDups : (xs : List Text) → NoDups xs → NoDups (sort xs)
unfolding sort
sort-NoDups [] h = tt
sort-NoDups (x ∷ xs) h =
    insert-NoDups x (sort xs) (λ m. h.0 ((Member-sort x xs).0 m)) (sort-NoDups xs h.1)

Member-unique_from :
    (a : Text) (seen xs : List Text)
    → (Member a (unique_from seen xs) → Member a xs × (¬ Member a seen))
      × (Member a xs → Member a (unique_from seen xs) ⊎ Member a seen)
unfolding unique_from
Member-unique_from a seen [] = ground arith
Member-unique_from a seen (x ∷ xs) =
    ground
      (arith, includes_iff seen x, Member-unique_from a seen xs, Member-unique_from a (x ∷ seen) xs)

unique_from-NoDups : (seen xs : List Text) → NoDups (unique_from seen xs)
unfolding unique_from
unique_from-NoDups seen [] = tt
unique_from-NoDups seen (x ∷ xs) = ground (
  arith,
  unique_from-NoDups seen xs,
  unique_from-NoDups (x ∷ seen) xs,
  Member-unique_from x (x ∷ seen) xs,
)

unique_from_of_NoDups :
    (seen xs : List Text)
    → NoDups xs
    → All (λ x. includes seen x ≡ false) xs
    → unique_from seen xs ≡ xs
unfolding unique_from
unique_from_of_NoDups seen [] n h = refl
unique_from_of_NoDups seen (x ∷ xs) n h =
    rw h.0 (ap (◌∷◌ x) (unique_from_of_NoDups (x ∷ seen) xs n.1 (unseen xs n.0 h.1)))
  where
    unseen :
        (ys : List Text)
        → ¬ Member x ys
        → All (λ y. includes seen y ≡ false) ys
        → All (λ y. includes (x ∷ seen) y ≡ false) ys
    unseen [] n h = tt
    unseen (y ∷ ys) n h = ground (arith, text_beq_iff x y, unseen ys)

pub unique_lem : (xs : List Text) → NoDups xs → unique xs ≡ xs
unfolding unique
unique_lem xs n = unique_from_of_NoDups [] xs n (unseen xs)
  where
    unseen : (ys : List Text) → All (λ y. includes [] y ≡ false) ys
    unseen [] = tt
    unseen (y ∷ ys) = (refl, unseen ys)

pub unique-NoDups : (xs : List Text) → NoDups (unique xs)
unfolding unique
unique-NoDups xs = unique_from-NoDups [] xs

pub Member-unique : (a : Text) (xs : List Text) → Member a (unique xs) ↔ Member a xs
unfolding unique
Member-unique a xs = ground (arith, Member-unique_from a [] xs)

module _ (P : Text → Type 0) where
  All-insert : (y : Text) (ys : List Text) → P y → All P ys → All P (insert y ys)
  unfolding insert
  All-insert y [] p h = (p, tt)
  All-insert y (z ∷ zs) p h = ground (arith, All-insert y zs p h.1)

  pub All-sort : (xs : List Text) → All P xs → All P (sort xs)
  unfolding sort
  All-sort [] h = tt
  All-sort (x ∷ xs) h = All-insert x (sort xs) h.0 (All-sort xs h.1)

  All-unique_from : (seen ys : List Text) → All P ys → All P (unique_from seen ys)
  unfolding unique_from
  All-unique_from seen [] h = tt
  All-unique_from seen (y ∷ ys) h =
      ground (arith, All-unique_from seen ys h.1, All-unique_from (y ∷ seen) ys h.1)

  pub All-unique : (xs : List Text) → All P xs → All P (unique xs)
  unfolding unique
  All-unique xs h = All-unique_from [] xs h
