-- ===== src/Gateway/Athenz/Matching.antt =====
-- What the comparisons of athenz.ts establish: normal forms, audiences, and coverage as a matching.
use id_jag_the_hard_way.Base.{
  ℕ, ◌+◌, true, Option, none, some, List, [], ◌∷◌, ◌++◌, ◌≡◌, ◌≢◌, ◌↔◌, refl, sym, ap, ◌∙◌, subst,
  length-append, length-take, Result, ok, err, ◌>>=◌, >>=-eq-ok, ok-injective, includes, length,
  take, drop, Member, NoDups, All, includes_iff, arith, Option-cases, Bool-cases, inl, inr,
}
use id_jag_the_hard_way.Base.Text.{Text, text_eq, text_beq_iff, words, unique, sort, join, index_of}
use id_jag_the_hard_way.Base.Text.Words.{IsWord, blank, words-IsWord, words-join}
use id_jag_the_hard_way.Base.Text.Sorting.{
  IsSorted, sort-IsSorted, sort_of_IsSorted, sort-NoDups, unique-NoDups, unique_lem, All-sort,
  All-unique, Member-sort, Member-unique,
}
use id_jag_the_hard_way.Base.Text.Search.{index_of_sound, take_pos}
use id_jag_the_hard_way.Gateway.Athenz.Scopes.{
  ScopeError, marker, scope_values, normalize_scope, domain_at, domains, requested_audiences,
  access_token_audience, checked_audience, equivalent_scope, take_match, scopes_cover,
  scopes_exactly_match, audiences_exactly_match,
}

-- The values of a scope are its words, each once and in order.
pub record IsNormal (values : List Text) : Type 0 where
  pub sorted : IsSorted values
  pub distinct : NoDups values
  pub are_words : All IsWord values

scope_values-IsNormal : (scope : Text) → IsNormal (scope_values scope)
unfolding scope_values
scope_values-IsNormal scope = record {
  sorted = sort-IsSorted _;
  distinct = sort-NoDups _ (unique-NoDups _);
  are_words = All-sort IsWord _ (All-unique IsWord _ (words-IsWord scope));
}

pub scope_values-join :
    (values : List Text) → IsNormal values → scope_values (join blank values) ≡ values
unfolding scope_values
scope_values-join values n =
    ap (λ ws. sort (unique ws)) (words-join values n.are_words)
    ∙ ap sort (unique_lem values n.distinct)
    ∙ sort_of_IsSorted values n.sorted

Member-scope_values : (scope w : Text) → Member w (scope_values scope) ↔ Member w (words scope)
unfolding scope_values
Member-scope_values scope w =
    let (to, from) = Member-sort w (unique (words scope)) in
    let (to', from') = Member-unique w (words scope) in (λ m. to' (to m), λ m. from (from' m))

-- Normalising is a round trip: a scope and its normal form have the same values, which are the
-- words of the scope, each once, in the order of their code units.
pub normalize_scope_lem :
    (scope normal : Text)
    → normalize_scope scope ≡ ok normal
    → (scope_values normal ≡ scope_values scope)
      × IsNormal (scope_values normal)
      × ((w : Text) → Member w (scope_values normal) ↔ Member w (words scope))
unfolding normalize_scope
normalize_scope_lem scope normal e =
    let joined : normal ≡ join blank (scope_values scope) = ground arith in
    let same : scope_values normal ≡ scope_values scope =
      ap scope_values joined ∙ scope_values-join _ (scope_values-IsNormal scope) in
    (same, scope_values-IsNormal normal, λ w. rw same (Member-scope_values scope w))

-- A fully qualified scope: a domain, the marker and a role, neither of them empty.
pub record IsQualified (scope domain : Text) : Type 0 where
  pub role : Text
  pub shape : scope ≡ domain ++ (marker ++ role)
  pub has_domain : domain ≢ []
  pub has_role : role ≢ []

domain_at_sound :
    (scope domain : Text)
    → domain_at scope (index_of scope marker) ≡ ok domain
    → IsQualified scope domain
unfolding domain_at
domain_at_sound scope domain e = elim (Option-cases (index_of scope marker)) [
  | inl missing ↦ absurd (cc (rw missing at e))
  | inr (i, found) ↦ found_at i found (rw found at e)
]
  where
    nonempty_scope :
        (i : ℕ) → scope ≡ take i scope ++ (marker ++ drop (i + length marker) scope) → scope ≢ []
    nonempty_scope i shape z = absurd (
        omega (
          arith,
          ap length shape,
          ap length z,
          length-append (take i scope) (marker ++ drop (i + length marker) scope),
        ))

    no_role :
        (i : ℕ) → i + length marker ≢ length scope → scope ≡ take i scope ++ (marker ++ []) → ⊥
    no_role i n shape =
        omega
          (arith, ap length shape, length-append (take i scope) (marker ++ []), length-take i scope)

    found_at :
        (i : ℕ)
        → index_of scope marker ≡ some i
        → domain_at scope (some i) ≡ ok domain
        → IsQualified scope domain
    found_at i found e =
        let shape = index_of_sound scope marker found in
        let same : take i scope ≡ domain = ground arith in
        let inside : (i ≢ 0) × (i + length marker ≢ length scope) = (ground arith, ground arith) in
        record {
          role = drop (i + length marker) scope;
          shape = rw (← same) shape;
          has_domain =
              subst (λ d. d ≢ []) same (take_pos i scope inside.0 (nonempty_scope i shape));
          has_role = λ z. no_role i inside.1 (rw z at shape);
        }

-- The domains are those of the scopes, one for each.
abbrev pub HasScope : List Text → Text → Type 0
HasScope scopes domain = (scope : Text) × Member scope scopes × IsQualified scope domain

domains_sound :
    (scopes found : List Text) (domain : Text)
    → domains scopes ≡ ok found
    → Member domain found
    → HasScope scopes domain
unfolding domains
domains_sound [] found domain e m = absurd (ground (arith, e))
domains_sound (scope ∷ scopes) found domain e m =
    let (d, first, e') = >>=-eq-ok (domain_at scope (index_of scope marker)) _ e in
    let (rest, others, e'') = >>=-eq-ok (domains scopes) _ e' in
    split d first rest (λ x. domains_sound scopes rest x others)
      (subst (Member domain) (sym (ok-injective e'')) m)
  where
    split :
        (d : Text)
        → domain_at scope (index_of scope marker) ≡ ok d
        → (rest : List Text) → ((x : Text) → Member x rest → HasScope scopes x)
        → Member domain (d ∷ rest)
        → HasScope (scope ∷ scopes) domain
    split d first rest ih (inl same) =
        (scope, inl refl, subst (IsQualified scope) same (domain_at_sound scope d first))
    split d first rest ih (inr later) = let (s, m, q) = ih domain later in (s, inr m, q)

requested_audiences_sound :
    (scopes requested : List Text)
    → requested_audiences scopes ≡ ok requested
    → (domain : Text) → Member domain requested
    → HasScope scopes domain
unfolding requested_audiences
requested_audiences_sound scopes requested e domain m =
    let (found, each, e') = >>=-eq-ok (domains scopes) _ e in
    let in_sorted = subst (Member domain) (sym (ok-injective e')) m in
    domains_sound scopes found domain each
      ((Member-unique domain found).0 ((Member-sort domain (unique found)).0 in_sorted))

checked_audience_sound :
    (requested : List Text) (selected : Result ScopeError (Option Text)) {audience : Text}
    → (selected >>= checked_audience requested) ≡ ok audience
    → Member audience requested
checked_audience_sound requested (err x) e = absurd (cc e)
checked_audience_sound requested (ok none) e = absurd (cc e)
checked_audience_sound requested (ok (some a)) {audience} e =
    let same : a ≡ audience = ground arith in
    let listed : includes requested a ≡ true = ground arith in
    subst (λ x. Member x requested) same ((includes_iff requested a).0 listed)

-- The audience of an access token is the domain of one of the requested scopes, whether it was
-- configured or taken from the first scope; so a misconfigured one is refused.
pub access_token_audience_sound :
    (scope : Text) (configured : Option Text) (audience : Text)
    → access_token_audience scope configured ≡ ok audience
    → HasScope (scope_values scope) audience
unfolding access_token_audience
access_token_audience_sound scope configured audience e =
    let (requested, found, e') = >>=-eq-ok (requested_audiences (scope_values scope)) _ e in
    requested_audiences_sound _ requested found audience (checked_audience_sound requested _ e')

-- Some way to give each requested scope a granted one of its own.
abbrev pub HasMatching : (granted requested : List Text) → Type 0
HasMatching granted [] = Unit
HasMatching granted (scope ∷ scopes) =
    (before : List Text) × (candidate : Text) × (after : List Text) × (granted
      ≡ before ++ candidate ∷ after)
    × (equivalent_scope candidate scope ≡ true)
    × HasMatching (before ++ after) scopes

take_match_sound :
    (scope : Text) (available : List Text) {rest : List Text}
    → take_match scope available ≡ some rest
    → (before : List Text) × (candidate : Text) × (after : List Text) × (available
        ≡ before ++ candidate ∷ after)
      × (equivalent_scope candidate scope ≡ true)
      × (rest ≡ before ++ after)
unfolding take_match
take_match_sound scope [] e = absurd (cc e)
take_match_sound scope (c ∷ cs) {rest} e = elim (Bool-cases (equivalent_scope c scope)) [
  | inl same ↦ ([], c, cs, refl, same, ground arith)
  | inr other ↦ elim (Option-cases (take_match scope cs)) [
    | inl missed ↦ absurd (ground arith)
    | inr (r, found) ↦
        let (before, candidate, after, split, same, left) = take_match_sound scope cs found in
        (c ∷ before, candidate, after, ap (◌∷◌ c) split, same, ground arith)
  ]
]

-- Coverage is sound: where it holds, the requested scopes can be matched with granted ones, one
-- for one.
scopes_cover_sound :
    (granted requested : List Text)
    → scopes_cover granted requested ≡ true
    → HasMatching granted requested
unfolding scopes_cover
scopes_cover_sound granted [] e = tt
scopes_cover_sound granted (scope ∷ scopes) e = elim (Option-cases (take_match scope granted)) [
  | inl missed ↦ absurd (ground arith)
  | inr (rest, found) ↦
      let (before, candidate, after, split, same, left) = take_match_sound scope granted found in
      (
        before,
        candidate,
        after,
        split,
        same,
        subst (λ g. HasMatching g scopes) left (scopes_cover_sound rest scopes (ground arith)),
      )
]

-- Scopes that match exactly can be paired, one for one, and are equally many.
pub scopes_exactly_match_sound :
    (left right : List Text)
    → scopes_exactly_match left right ≡ true
    → HasMatching left right × (length left ≡ length right)
unfolding scopes_exactly_match
scopes_exactly_match_sound left right e =
    (scopes_cover_sound left right (ground arith), ground arith)

-- Audiences match exactly when they are the same list.
pub audiences_exactly_match_iff :
    (left right : List Text) → (audiences_exactly_match left right ≡ true) ↔ (left ≡ right)
unfolding audiences_exactly_match
audiences_exactly_match_iff [] [] = ground arith
audiences_exactly_match_iff [] (y ∷ ys) = ground arith
audiences_exactly_match_iff (x ∷ xs) [] = ground arith
audiences_exactly_match_iff (x ∷ xs) (y ∷ ys) =
    ground (arith, audiences_exactly_match_iff xs ys, text_beq_iff x y)
