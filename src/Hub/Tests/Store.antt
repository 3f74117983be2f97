-- ===== src/Hub/Tests/Store.antt =====
-- A list of configuration maps, the latest first, as a cluster to run
-- components/idthw_hub/features/workflow on.
use id_jag_the_hard_way.Base.{
  ◌≡◌, refl, sym, ◌∙◌, subst, ◌↔◌, inl, inr, Bool, true, false, not, Option, none, some, List, [],
  ◌∷◌, is_some, Result, ok, err, if◌then◌else◌, includes, ◌==◌, Member, keep_if, Bool-cases,
  Option-cases, ok-injective, err-eq-ok, arith,
}
use id_jag_the_hard_way.Base.Text.{Text, text_eq, text_beq_iff, lit}
use id_jag_the_hard_way.Base.Dict.{get}
use id_jag_the_hard_way.Base.Options.{is_text, is_text_iff}
use id_jag_the_hard_way.Hub.Cluster.{ConfigMap, Patch, merge, Cluster, Laws}

unfoldable pub find : List ConfigMap → Text → Option ConfigMap
find [] n = none
find (m ∷ s) n = if m.name == n then some m else find s n

-- the maps that no later one hides
unfoldable pub live : List Text → List ConfigMap → List ConfigMap
live seen [] = []
live seen (m ∷ s) =
    let rest = live (m.name ∷ seen) s in if includes seen m.name then rest else m ∷ rest

abbrev pub without : List Text → List ConfigMap → List ConfigMap
without names = keep_if (λ m. not (includes names m.name))

unfoldable pub patched : List ConfigMap → Option ConfigMap → Patch → Result Text (List ConfigMap)
patched s none p = err (lit "NotFound")
patched s (some m) p = ok (merge m p ∷ s)

abbrev pub list_cluster : Cluster
list_cluster = record {
  State = List ConfigMap;
  stored = find;
  fetch = λ s n. ok (find s n);
  select = λ s label value. ok (keep_if (λ m. is_text (get m.labels label) value) (live [] s));
  review_create = λ s m. ok tt;
  create = λ s m. if is_some (find s m.name) then err (lit "AlreadyExists") else ok (m ∷ s);
  review_patch = λ s n p. ok tt;
  patch = λ s n p. patched s (find s n) p;
  review_delete = λ s names. ok tt;
  delete = λ s names. ok (without names s);
}

pub find_name : (s : List ConfigMap) (n : Text) {m : ConfigMap} → find s n ≡ some m → m.name ≡ n
unfolding find
find_name [] n h = cc
find_name (k ∷ s) n {m} h = elim (Bool-cases (k.name == n)) [
  | inl e ↦
      let same : some k ≡ some m = rw e at h in
      let same : k ≡ m = ground (arith, same) in
      subst (λ (m : ConfigMap). m.name ≡ n) same ((text_beq_iff k.name n).0 e)
  | inr e ↦ find_name s n (rw e at h)
]

live_iff :
    (seen : List Text) (s : List ConfigMap) (m : ConfigMap)
    → Member m (live seen s) ↔ ((find s m.name ≡ some m) × (includes seen m.name ≡ false))
unfolding find live
live_iff seen [] m = ground arith
live_iff seen (k ∷ s) m = ground (arith, live_iff (k.name ∷ seen) s m, text_beq_iff k.name m.name)

Member-keep_if :
    {A : Type 0} (p : A → Bool) (xs : List A) (a : A)
    → Member a (keep_if p xs) ↔ (Member a xs × (p a ≡ true))
Member-keep_if p [] a = ground arith
Member-keep_if p (x ∷ xs) a = elim (Bool-cases (p x)) [
  | inl e ↦ rw e (ground (arith, Member-keep_if p xs a, e))
  | inr e ↦ rw e (ground (arith, Member-keep_if p xs a, e))
]

find-without :
    (names : List Text) (s : List ConfigMap) (n : Text)
    → find (without names s) n ≡ (if includes names n then none else find s n)
unfolding find
find-without names [] n = ground arith
find-without names (k ∷ s) n = ground (arith, find-without names s n, text_beq_iff k.name n)

create_cases :
    (s : List ConfigMap) (m : ConfigMap) {t : List ConfigMap}
    → (if is_some (find s m.name) then err (lit "AlreadyExists") else ok (m ∷ s)) ≡ ok t
    → (find s m.name ≡ none) × ((m ∷ s) ≡ t)
create_cases s m h = elim (Option-cases (find s m.name)) [
  | inl e ↦ (e, ok-injective (rw e at h))
  | inr (k, e) ↦ absurd (err-eq-ok (rw e at h))
]

patched-eq-ok :
    (s : List ConfigMap) (o : Option ConfigMap) (p : Patch) {t : List ConfigMap}
    → patched s o p ≡ ok t
    → (m : ConfigMap) × (o ≡ some m) × ((merge m p ∷ s) ≡ t)
unfolding patched
patched-eq-ok s none p h = cc
patched-eq-ok s (some m) p h = (m, refl, ok-injective h)

patch_cases :
    (s : List ConfigMap) (n : Text) (p : Patch) (k : Text) {t : List ConfigMap} {m : ConfigMap}
    → patched s (find s n) p ≡ ok t
    → find s n ≡ some m
    → find t k ≡ (if n == k then some (merge m p) else find s k)
patch_cases s n p k {t} {m} h found =
    let (m', e, same) = patched-eq-ok s (find s n) p h in
    let maps : some m' ≡ some m = sym e ∙ found in
    let maps : m' ≡ m = ground (arith, maps) in
    subst (λ t. find t k ≡ (if n == k then some (merge m p) else find s k)) same
      (subst (λ x. find (merge x p ∷ s) k ≡ (if n == k then some (merge m p) else find s k))
        (sym maps)
        (subst (λ n. find (merge m p ∷ s) k ≡ (if n == k then some (merge m p) else find s k))
          (find_name s n found) (unfold find merge in refl)))

pub list_cluster-Laws : Laws list_cluster
list_cluster-Laws = record {
  stored_name = λ s n h. find_name s n h;
  fetch_lem = λ s n h. sym (ok-injective h);
  select_lem = λ s label value h m.
      subst (λ l. Member m l ↔ ((find s m.name ≡ some m) × (get m.labels label ≡ some value)))
        (ok-injective h)
        (ground (
          arith,
          Member-keep_if (λ m. is_text (get m.labels label) value) (live [] s) m,
          live_iff [] s m,
          is_text_iff (get m.labels label) value,
        ));
  create_new = λ s m h. (create_cases s m h).0;
  create_lem = λ s m h n.
      subst (λ t. find t n ≡ (if m.name == n then some m else find s n)) (create_cases s m h).1
        (unfold find in refl);
  patch_old = λ s n p h. let (m, e, _) = patched-eq-ok s (find s n) p h in (m, e);
  patch_lem = λ s n p h found k. patch_cases s n p k h found;
  delete_lem = λ s names h n.
      subst (λ t. find t n ≡ (if includes names n then none else find s n)) (ok-injective h)
        (find-without names s n);
}
