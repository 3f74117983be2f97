-- ===== src/Hub/Permissions/FromSettings.antt =====
-- How the groups of a preset come from the configured requirements of the tools
-- (components/idthw_hub/features/permissions/lib/permissionPreset.ts).
use id_jag_the_hard_way.Base.{
  ℕ, suc, ◌≡◌, ◌≢◌, ◌⊎◌, ◌++◌, ◌∙◌, is_empty, includes, refl, sym, subst, Bool, true, false, not,
  Option, none, some, List, [], ◌∷◌, nat_eq, All, Bool-cases, inl, inr, ◌>>=◌, throw_if,
}
use id_jag_the_hard_way.Base.Ensures.{
  Ensures, Ensures-bind, on_ok, reads, passes, Ensures-ok, Ensures-intro,
}
use id_jag_the_hard_way.Base.Text.{Text, text_eq, lit}
use id_jag_the_hard_way.Base.Dict.{Dict}
use id_jag_the_hard_way.Hub.Permissions.{
  signed_in_roles, parse_athenz_role, is_principal, is_route_id,
  ConfiguredExchangeHelperRequirement, ConfiguredPermissionRequirement, ToolPermissionSettings,
}
use id_jag_the_hard_way.Hub.Permissions.Resolving.{
  PermissionRequirement, PermissionPresetGroup, PermissionPreset, validate_configured_member,
  resolve_member, resolve_configured_requirement, as_requirement, resolve_helpers,
  ExchangeHelperContext, or_else, helpers_of_roles, first_of_each, identity,
  exchange_helper_requirements, configured_helpers, helpers_where_included,
}
use id_jag_the_hard_way.Hub.Permissions.Preset.{
  tool_requirements, preset_groups, permission_preset_from_tool_settings,
}
use id_jag_the_hard_way.Hub.Permissions.Members.{resolved, resolve_member-Resolves}

-- `q` is the configured requirement `r`, with its own member, or the signed-in user for the
-- placeholder.
pub record IsFor (p : Text) (r : ConfiguredPermissionRequirement) (q : PermissionRequirement)
    : Type 0 where
  pub configured : q.configured_member ≡ r.member
  pub member_of : q.member ≡ resolved p r.member
  pub principal : is_principal q.member ≡ true
  pub same_role : q.role ≡ r.role
  pub same_label : q.label ≡ r.label

-- one for each, in order
abbrev pub AreFor :
    Text → List ConfiguredExchangeHelperRequirement → List PermissionRequirement → Type 0
AreFor p [] [] = Unit
AreFor p (h ∷ hs) (q ∷ qs) =
    (IsFor p (as_requirement h) q × (q.exchange_policies ≡ h.policies)) × AreFor p hs qs
AreFor p _ _ = ⊥

-- a helper that is made, for the service or for the gateway
abbrev pub IsMade : ExchangeHelperContext → ConfiguredExchangeHelperRequirement → Type 0
IsMade c h =
    (h.member ≡ or_else c.service_principal [])
    ⊎ (h.member ≡ or_else c.gateway_principal (lit "mcp-hub.mcp-gateway"))

-- The helpers of a configured requirement: those that it lists, or some that are made, and only where
-- it includes helpers.
pub data Helps (c : ExchangeHelperContext) (p : Text) (r : ConfiguredPermissionRequirement)
    : List PermissionRequirement → Type 0 where
  without_helpers : r.include_exchange_helpers ≢ some true → Helps c p r []
  listed :
      (hs : List ConfiguredExchangeHelperRequirement) {qs : List PermissionRequirement}
      → r.include_exchange_helpers ≡ some true
      → r.exchange_helper_requirements ≡ some hs
      → AreFor p hs qs
      → Helps c p r qs
  made :
      (hs : List ConfiguredExchangeHelperRequirement) {qs : List PermissionRequirement}
      → r.include_exchange_helpers ≡ some true
      → r.exchange_helper_requirements ≡ none
      → All (IsMade c) hs
      → AreFor p hs qs
      → Helps c p r qs

pub data FromTool (c : ExchangeHelperContext) (p : Text)
    : List ConfiguredPermissionRequirement → List PermissionRequirement → Type 0 where
  none_left : FromTool c p [] []
  one_more :
      (r : ConfiguredPermissionRequirement) (rs : List ConfiguredPermissionRequirement)
      (q : PermissionRequirement) (hs rest : List PermissionRequirement)
      → IsFor p r q
      → Helps c p r hs
      → FromTool c p rs rest
      → FromTool c p (r ∷ rs) (q ∷ hs ++ rest)

-- one group for each tool, in order
abbrev pub FromTools :
    ExchangeHelperContext
    → Text
    → Dict (List ConfiguredPermissionRequirement)
    → List PermissionPresetGroup
    → Type 0
FromTools c p [] [] = Unit
FromTools c p ((name, rs) ∷ tools) (g ∷ gs) =
    ((g.tool_name ≡ some name) × FromTool c p rs g.requirements) × FromTools c p tools gs
FromTools c p _ _ = ⊥

resolve_configured-IsFor :
    (r : ConfiguredPermissionRequirement) (p : Text) (i : Option ℕ)
    → Ensures (IsFor p r) (resolve_configured_requirement r p i)
unfolding resolve_configured_requirement
resolve_configured-IsFor r p i =
    reads (resolve_member r.member p) _
      (λ m e. Ensures-ok (resolve_member r.member p) (resolve_member-Resolves r.member p) e)
      (λ m q. on_ok (record {
        configured = refl;
        member_of = q.member_of;
        principal = q.principal;
        same_role = refl;
        same_label = refl;
      }))

resolve_helpers-AreFor :
    (p : Text) (i : ℕ) (hs : List ConfiguredExchangeHelperRequirement)
    → Ensures (AreFor p hs) (resolve_helpers p i hs)
unfolding resolve_helpers
resolve_helpers-AreFor p i [] = on_ok tt
resolve_helpers-AreFor p i (h ∷ hs) =
    Ensures-bind (resolve_configured_requirement (as_requirement h) p none) _
      (resolve_configured-IsFor (as_requirement h) p none)
      (λ r q. Ensures-bind (resolve_helpers p i hs) _ (resolve_helpers-AreFor p i hs) (λ rs qs.
        on_ok (
          (
            record {
              configured = q.configured;
              member_of = q.member_of;
              principal = q.principal;
              same_role = q.same_role;
              same_label = q.same_label;
            },
            refl,
          ),
          qs,
        )))

module _ (c : ExchangeHelperContext) where
  abbrev service : Text
  service = or_else c.service_principal []

  abbrev gateway : Text
  gateway = or_else c.gateway_principal (lit "mcp-hub.mcp-gateway")

  helpers_of_roles-IsMade :
      (roles : List Text) → Ensures (All (IsMade c)) (helpers_of_roles service gateway roles)
  unfolding helpers_of_roles
  helpers_of_roles-IsMade [] = on_ok tt
  helpers_of_roles-IsMade (role ∷ roles) = passes (parse_athenz_role role) _ (λ a.
      Ensures-bind (helpers_of_roles service gateway roles) _ (helpers_of_roles-IsMade roles)
        (λ hs q. on_ok (inr refl, (inl refl, q))))

  first_of_each-All :
      (P : ConfiguredExchangeHelperRequirement → Type 0) (seen : List Text)
      (hs : List ConfiguredExchangeHelperRequirement)
      → All P hs
      → All P (first_of_each seen hs)
  unfolding first_of_each
  first_of_each-All P seen [] h = tt
  first_of_each-All P seen (x ∷ hs) h =
      let rest = first_of_each-All P (identity x.member x.role ∷ seen) hs h.1 in
      elim (Bool-cases (includes seen (identity x.member x.role))) [
        | inl y ↦ rw y rest
        | inr n ↦ rw n (h.0, rest)
      ]

  exchange_helper_requirements-IsMade :
      (rs : List ConfiguredPermissionRequirement)
      → Ensures (All (IsMade c)) (exchange_helper_requirements rs service gateway)
  unfolding exchange_helper_requirements
  exchange_helper_requirements-IsMade rs = passes (validate_configured_member service) _ (λ _.
      passes (validate_configured_member gateway) _ (λ _.
        Ensures-bind (helpers_of_roles service gateway (signed_in_roles rs)) _
          (helpers_of_roles-IsMade (signed_in_roles rs))
          (λ hs q.
            passes (throw_if (is_empty (signed_in_roles rs)) _) _
              (λ _. on_ok (first_of_each-All (IsMade c) [] hs q)))))

  helpers-Helps :
      (p : Text) (i : ℕ) (r : ConfiguredPermissionRequirement) (o : Option Bool)
      (given : Option (List ConfiguredExchangeHelperRequirement))
      → r.include_exchange_helpers ≡ o
      → r.exchange_helper_requirements ≡ given
      → Ensures (Helps c p r) (helpers_where_included c p i r o)
  unfolding helpers_where_included configured_helpers
  helpers-Helps p i r none given e f = on_ok (without_helpers (λ h. cc (sym e ∙ h)))
  helpers-Helps p i r (some false) given e f = on_ok (without_helpers (λ h. cc (sym e ∙ h)))
  helpers-Helps p i r (some true) given e f =
      subst
        (λ g. Ensures (Helps c p r) (configured_helpers c r g >>= (λ hs. resolve_helpers p i hs)))
        (sym f) (included given f)
    where
      included :
          (given : Option (List ConfiguredExchangeHelperRequirement))
          → r.exchange_helper_requirements ≡ given
          → Ensures (Helps c p r) (configured_helpers c r given >>= (λ hs. resolve_helpers p i hs))
      included (some hs) f =
          Ensures-intro (resolve_helpers p i hs)
            (λ qs h. listed hs e f (Ensures-ok _ (resolve_helpers-AreFor p i hs) h))
      included none f =
          Ensures-bind (exchange_helper_requirements (r ∷ []) service gateway) _
            (exchange_helper_requirements-IsMade (r ∷ []))
            (λ hs m.
              Ensures-intro (resolve_helpers p i hs)
                (λ qs h. made hs e f m (Ensures-ok _ (resolve_helpers-AreFor p i hs) h)))

  tool_requirements-FromTool :
      (p : Text) (i : ℕ) (rs : List ConfiguredPermissionRequirement)
      → Ensures (FromTool c p rs) (tool_requirements c p i rs)
  unfolding tool_requirements
  tool_requirements-FromTool p i [] = on_ok none_left
  tool_requirements-FromTool p i (r ∷ rs) =
      Ensures-bind (resolve_configured_requirement r p (some i)) _
        (resolve_configured-IsFor r p (some i))
        (λ q d.
          Ensures-bind (helpers_where_included c p i r r.include_exchange_helpers) _
            (helpers-Helps p i r r.include_exchange_helpers r.exchange_helper_requirements refl
              refl)
            (λ hs k.
              Ensures-bind (tool_requirements c p (suc i) rs) _
                (tool_requirements-FromTool p (suc i) rs)
                (λ rest t. on_ok (one_more r rs q hs rest d k t))))

  preset_groups-FromTools :
      (p : Text) (tools : Dict (List ConfiguredPermissionRequirement))
      → Ensures (FromTools c p tools) (preset_groups c p tools)
  unfolding preset_groups
  preset_groups-FromTools p [] = on_ok tt
  preset_groups-FromTools p ((name, rs) ∷ tools) =
      Ensures-bind (tool_requirements c p 0 rs) _ (tool_requirements-FromTool p 0 rs) (λ qs q.
        Ensures-bind (preset_groups c p tools) _ (preset_groups-FromTools p tools)
          (λ rest k. on_ok ((refl, q), k)))

  pub permission_preset-FromTools :
      (settings : ToolPermissionSettings) (server_id p : Text)
      → Ensures
          (λ (preset : PermissionPreset). FromTools c p settings.tools preset.groups)
          (permission_preset_from_tool_settings settings server_id p c)
  unfolding permission_preset_from_tool_settings
  permission_preset-FromTools settings server_id p =
      passes (throw_if (not (is_route_id server_id)) _) _ (λ _.
        Ensures-bind (preset_groups c p settings.tools) _ (preset_groups-FromTools p settings.tools)
          (λ groups q. on_ok q))
