-- ===== src/Hub/Permissions/Published.antt =====
-- The scopes that the hub publishes for a tool, as the gateway reads them
-- (components/idthw_hub/features/permissions/lib/permissionPreset.ts and
-- components/mcp-gateway/src/services/athenz.ts).
use id_jag_the_hard_way.Base.{
  ℕ, ◌+◌, ◌≡◌, refl, sym, ap, ◌∙◌, subst, ◌↔◌, ◌⊎◌, inl, inr, true, false, not, ◌&&◌, Option, none,
  some, List, [], ◌∷◌, ◌++◌, Member, All, All-append, and-eq-true, all, take, drop, is_empty,
  Bool-cases, Option-cases, ◌==◌, ok, throw_if, >>=-eq-ok, throw_if-eq-ok, ok-injective, err-eq-ok,
  arith,
}
use id_jag_the_hard_way.Base.Text.{
  text_beq_iff, Text, text_eq, lit, index_of, words, unique, join, is_space,
}
use id_jag_the_hard_way.Base.Text.Words.{blank, NoSpace, IsWord, words-IsWord}
use id_jag_the_hard_way.Base.Text.Sorting.{
  Member-sort, Member-unique, sort-IsSorted, sort-NoDups, unique-NoDups, All-sort, All-unique,
}
use id_jag_the_hard_way.Base.Dict.{Dict, get}
use id_jag_the_hard_way.Base.Text.Search.{index_of_sound}
use id_jag_the_hard_way.Gateway.Athenz.Matching.{IsNormal, scope_values-join}
use id_jag_the_hard_way.Gateway.Athenz.Scopes.{scope_values}
use id_jag_the_hard_way.Hub.Permissions.{
  signed_in_user_member, AthenzRole, no_access_scope, ConfiguredPermissionRequirement,
  ToolPermissionSettings, is_name_char, is_name, is_route_id, split_role, parse_athenz_role,
  check_roles, scope_words, parse_access_scope, signed_in_roles, tool_scopes, scopes_of_tools,
  tool_access_scopes_from_settings,
}

name_char-space : (c : ℕ) → is_name_char c ≡ true → is_space c ≡ false
unfolding is_space
name_char-space c h = ground (arith, h)

name-NoSpace : (s : Text) → all is_name_char s ≡ true → NoSpace s
name-NoSpace [] h = tt
name-NoSpace (c ∷ s) h = ground (arith, name_char-space c, name-NoSpace s)

is_name-NoSpace : (s : Text) → is_name s ≡ true → NoSpace s
unfolding is_name
is_name-NoSpace [] h = tt
is_name-NoSpace (c ∷ s) h = name-NoSpace (c ∷ s) (ground (arith, h))

is_name-filled : (s : Text) → is_name s ≡ true → is_empty s ≡ false
unfolding is_name
is_name-filled [] h = cc
is_name-filled (c ∷ s) h = refl

filled_append : (s t : Text) → is_empty s ≡ false → is_empty (s ++ t) ≡ false
filled_append [] t h = cc
filled_append (c ∷ s) t h = refl

-- A role that is accepted is one word.
parse_athenz_role-IsWord : (s : Text) {a : AthenzRole} → parse_athenz_role s ≡ ok a → IsWord s
unfolding parse_athenz_role split_role
parse_athenz_role-IsWord s {a} h = elim (Option-cases (index_of s (lit ":role."))) [
  | inl e ↦ absurd (err-eq-ok (rw e at h))
  | inr (i, e) ↦ elim (Bool-cases (is_name (take i s) && is_name (drop (i + 6) s))) [
    | inl fits ↦ word i e (and-eq-true (is_name (take i s)) (is_name (drop (i + 6) s)) fits)
    | inr misfit ↦ absurd (err-eq-ok (rw misfit at (rw e at h)))
  ]
]
  where
    word :
        (i : ℕ)
        → index_of s (lit ":role.") ≡ some i
        → (is_name (take i s) ≡ true) × (is_name (drop (i + 6) s) ≡ true)
        → IsWord s
    word i e fits = subst IsWord (sym (index_of_sound s (lit ":role.") e)) (
      filled_append (take i s) (lit ":role." ++ drop (i + 6) s) (is_name-filled (take i s) fits.0),
      All-append (λ c. is_space c ≡ false) (take i s) (lit ":role." ++ drop (i + 6) s)
          (is_name-NoSpace (take i s) fits.0)
          (All-append (λ c. is_space c ≡ false) (lit ":role.") (drop (i + 6) s)
            (unfold is_space in (refl, (refl, (refl, (refl, (refl, (refl, tt)))))))
            (is_name-NoSpace (drop (i + 6) s) fits.1)),
    )

-- the requirements have roles that `parseAthenzRole` accepts, as the parser of settings ensures
abbrev pub HaveRoles : List ConfiguredPermissionRequirement → Type 0
HaveRoles = All (λ r. (a : AthenzRole) × (parse_athenz_role r.role ≡ ok a))

signed_in_roles-IsWord :
    (rs : List ConfiguredPermissionRequirement) → HaveRoles rs → All IsWord (signed_in_roles rs)
signed_in_roles-IsWord [] h = tt
signed_in_roles-IsWord (r ∷ rs) h =
    ground (arith, parse_athenz_role-IsWord r.role h.0.1, signed_in_roles-IsWord rs h.1)

scope_words-IsWord : (scope : Option Text) → All IsWord (scope_words scope)
scope_words-IsWord none = tt
scope_words-IsWord (some s) = All-unique IsWord (words s) (words-IsWord s)

Member-append : (a : Text) (xs ys : List Text) → Member a (xs ++ ys) ↔ (Member a xs ⊎ Member a ys)
Member-append a [] ys = ground arith
Member-append a (x ∷ xs) ys = ground (arith, Member-append a xs ys)

tool_scopes-IsNormal :
    (route : List Text) (rs : List ConfiguredPermissionRequirement)
    → All IsWord route
    → HaveRoles rs
    → IsNormal (tool_scopes route rs)
tool_scopes-IsNormal route rs h k = record {
  sorted = sort-IsSorted _;
  distinct = sort-NoDups _ (unique-NoDups _);
  are_words = All-sort IsWord _ (
      All-unique IsWord _
        (All-append IsWord (signed_in_roles rs) route (signed_in_roles-IsWord rs k) h));
}

Member-tool_scopes :
    (route : List Text) (rs : List ConfiguredPermissionRequirement) (w : Text)
    → Member w (tool_scopes route rs) ↔ (Member w (signed_in_roles rs) ⊎ Member w route)
Member-tool_scopes route rs w =
    let (to, from) = Member-sort w (unique (signed_in_roles rs ++ route)) in
    let (to', from') = Member-unique w (signed_in_roles rs ++ route) in
    let (to'', from'') = Member-append w (signed_in_roles rs) route in
    (λ m. to'' (to' (to m)), λ m. from (from' (from'' m)))

-- What the gateway reads from the scope that is published for a tool.
-- the roles that a tool asks of the signed-in user
abbrev pub Asks : List ConfiguredPermissionRequirement → Text → Type 0
Asks rs w =
    (r : ConfiguredPermissionRequirement) × Member r rs
    × (r.member ≡ lit "<signed_in_user>")
    × (r.role ≡ w)

pub signed_in_roles_iff :
    (rs : List ConfiguredPermissionRequirement) (w : Text)
    → Member w (signed_in_roles rs) ↔ Asks rs w
signed_in_roles_iff [] w = (λ h. absurd h, λ h. absurd h.1)
signed_in_roles_iff (r ∷ rs) w = elim (Bool-cases (r.member == signed_in_user_member)) [
  | inl y ↦ rw y (
    λ h. elim h [
      | inl e ↦ (r, inl refl, (text_beq_iff r.member signed_in_user_member).0 y, e)
      | inr k ↦ let (q, m, a, b) = (signed_in_roles_iff rs w).0 k in (q, inr m, a, b)
    ],
    λ h. elim h.1 [
      | inl e ↦ inl (ap (λ (q : ConfiguredPermissionRequirement). q.role) e ∙ h.3)
      | inr m ↦ inr ((signed_in_roles_iff rs w).1 (h.0, m, h.2, h.3))
    ],
  )
  | inr n ↦ rw n (
    λ k. let (q, m, a, b) = (signed_in_roles_iff rs w).0 k in (q, inr m, a, b),
    λ h. elim h.1 [
      | inl e ↦
          let at : r.member ≡ signed_in_user_member =
            ap (λ (q : ConfiguredPermissionRequirement). q.member) e ∙ h.2 in
          let y = (text_beq_iff r.member signed_in_user_member).1 at in absurd (cc)
      | inr m ↦ (signed_in_roles_iff rs w).1 (h.0, m, h.2, h.3)
    ],
  )
]

pub record ReadsAs (route : List Text) (rs : List ConfiguredPermissionRequirement) (o : Option Text)
    : Type 0 where
  pub scope : Text
  pub published : o ≡ some scope
  pub nonempty : is_empty (scope_values scope) ≡ false
  pub exactly : (w : Text) → Member w (scope_values scope) ↔ (Asks rs w ⊎ Member w route)

join-ReadsAs :
    (route : List Text) (rs : List ConfiguredPermissionRequirement)
    → All IsWord route
    → HaveRoles rs
    → is_empty (tool_scopes route rs) ≡ false
    → ReadsAs route rs (some (join blank (tool_scopes route rs)))
join-ReadsAs route rs words roles filled =
    let same =
      scope_values-join (tool_scopes route rs) (tool_scopes-IsNormal route rs words roles) in
    record {
      scope = join blank (tool_scopes route rs);
      published = refl;
      nonempty = ap is_empty same ∙ filled;
      exactly = λ w.
          subst (λ ws. Member w ws ↔ (Asks rs w ⊎ Member w route)) (sym same)
            (asked_iff w (Member-tool_scopes route rs w));
    }
  where
    asked_iff :
        (w : Text)
        → Member w (tool_scopes route rs) ↔ (Member w (signed_in_roles rs) ⊎ Member w route)
        → Member w (tool_scopes route rs) ↔ (Asks rs w ⊎ Member w route)
    asked_iff w h = ground (arith, h, signed_in_roles_iff rs w)

scopes_of_tools-ReadsAs :
    (route : List Text) (tools : Dict (List ConfiguredPermissionRequirement)) (tool : Text)
    {d : Dict Text} {rs : List ConfiguredPermissionRequirement}
    → scopes_of_tools route tools ≡ ok d
    → All IsWord route
    → get tools tool ≡ some rs
    → HaveRoles rs
    → ReadsAs route rs (get d tool)
unfolding scopes_of_tools get
scopes_of_tools-ReadsAs route [] tool h words found roles = cc
scopes_of_tools-ReadsAs route ((name, qs) ∷ tools) tool {d} {rs} h words found roles =
    let (_, e, h) =
      >>=-eq-ok (throw_if (is_empty (tool_scopes route qs)) (no_access_scope name)) _ h in
    let (rest, f, h) = >>=-eq-ok (scopes_of_tools route tools) _ h in
    let filled = throw_if-eq-ok (is_empty (tool_scopes route qs)) _ e in
    subst (λ d. ReadsAs route rs (get d tool)) (ok-injective h)
      (elim (Bool-cases (name == tool)) [
        | inl y ↦
            let same : some qs ≡ some rs = rw y at found in
            let same : qs ≡ rs = ground (arith, same) in
            rw y (
              subst (λ rs. ReadsAs route rs (some (join blank (tool_scopes route qs)))) same
                (join-ReadsAs route qs words (subst HaveRoles (sym same) roles) filled))
        | inr n ↦ rw n (scopes_of_tools-ReadsAs route tools tool f words (rw n at found) roles)
      ])

-- the words of the access scope of the route
abbrev pub AsksRoute : Option Text → Text → Type 0
AsksRoute none w = ⊥
AsksRoute (some s) w = Member w (words s)

route_words : (scope : Option Text) (w : Text) → Member w (scope_words scope) ↔ AsksRoute scope w
route_words none w = (λ m. m, λ m. m)
route_words (some s) w = Member-unique w (words s)

-- What the gateway reads from the scope that is published for a tool: the roles that the tool asks of
-- the signed-in user and those of the route.
pub record IsPublished (route : Option Text) (rs : List ConfiguredPermissionRequirement)
    (o : Option Text) : Type 0 where
  pub scope : Text
  pub published : o ≡ some scope
  pub nonempty : is_empty (scope_values scope) ≡ false
  pub exactly : (w : Text) → Member w (scope_values scope) ↔ (Asks rs w ⊎ AsksRoute route w)

-- Where the hub has scopes for the tools of a server, each configured tool has one, and what the
-- gateway reads from it is not empty and has exactly the roles that the tool asks of the
-- signed-in user and those of the access scope of the route. The roles of the tool are such as
-- the parser of roles accepts.
pub tool_access_scopes-IsPublished :
    (settings : ToolPermissionSettings) (server_id : Text) (scope : Option Text) (tool : Text)
    {d : Dict Text} {rs : List ConfiguredPermissionRequirement}
    → tool_access_scopes_from_settings settings server_id scope ≡ ok d
    → get settings.tools tool ≡ some rs
    → HaveRoles rs
    → IsPublished scope rs (get d tool)
unfolding tool_access_scopes_from_settings parse_access_scope
tool_access_scopes-IsPublished settings server_id scope tool {d} {rs} h found roles =
    let (_, _, h) = >>=-eq-ok (throw_if (not (is_route_id server_id)) _) _ h in
    let (route, e, h) = >>=-eq-ok (parse_access_scope scope) _ h in
    let (_, _, e) = >>=-eq-ok (check_roles (scope_words scope)) _ e in
    let h = subst (λ route. scopes_of_tools route settings.tools ≡ ok d) (sym (ok-injective e)) h in
    published (
      scopes_of_tools-ReadsAs (scope_words scope) settings.tools tool h (scope_words-IsWord scope)
        found roles)
  where
    published : ReadsAs (scope_words scope) rs (get d tool) → IsPublished scope rs (get d tool)
    published k = record {
      scope = k.scope;
      published = k.published;
      nonempty = k.nonempty;
      exactly = λ w.
          let (to, from) = k.exactly w in
          let (route, route') = route_words scope w in
          (
            λ m. elim (to m) [ inl a ↦ inl a | inr b ↦ inr (route b) ],
            λ m. from (elim m [ inl a ↦ inl a | inr b ↦ inr (route' b) ]),
          );
    }
