-- ===== src/Hub/Permissions/Members.antt =====
-- The members of a preset of components/idthw_hub/features/permissions/lib/permissionPreset.ts.
use id_jag_the_hard_way.Base.{
  ℕ, suc, ◌≡◌, refl, sym, subst, Bool, true, false, not, ◌||◌, Option, none, some, List, [], ◌∷◌,
  if◌then◌else◌, ◌==◌, nat_eq, All, All-append, any, Bool-cases, inl, inr, ok, ◌>>=◌, throw_if,
  throw_if-eq-ok, err-eq-ok, arith,
}
use id_jag_the_hard_way.Base.Ensures.{Ensures, Ensures-bind, on_ok, reads, passes, Ensures-ok}
use id_jag_the_hard_way.Base.Text.{Text, text_eq}
use id_jag_the_hard_way.Base.Dict.{Dict}
use id_jag_the_hard_way.Hub.Permissions.{
  signed_in_user_member, is_principal, is_route_id, ConfiguredExchangeHelperRequirement,
  ConfiguredPermissionRequirement, ToolPermissionSettings,
}
use id_jag_the_hard_way.Hub.Permissions.Resolving.{
  PermissionRequirement, PermissionPresetGroup, PermissionPreset, validate_configured_member,
  require_principal, resolve_member, resolve_configured_requirement, as_requirement,
  resolve_helpers, ExchangeHelperContext, configured_helpers, helpers_where_included,
}
use id_jag_the_hard_way.Hub.Permissions.Preset.{
  tool_requirements, preset_groups, permission_preset_from_tool_settings,
}

abbrev pub resolved : (signed_in_principal configured : Text) → Text
resolved p m = if m == signed_in_user_member then p else m

-- The member is a principal, and is the configured one, or the signed-in user for the placeholder.
pub record IsResolved (p : Text) (r : PermissionRequirement) : Type 0 where
  pub principal : is_principal r.member ≡ true
  pub member_of : r.member ≡ resolved p r.configured_member

abbrev pub GroupIsResolved : Text → PermissionPresetGroup → Type 0
GroupIsResolved p g = All (IsResolved p) g.requirements

abbrev pub PresetIsResolved : Text → Option PermissionPreset → Type 0
PresetIsResolved p none = ⊥
PresetIsResolved p (some preset) = All (GroupIsResolved p) preset.groups

pub record Resolves (p m member : Text) : Type 0 where
  pub principal : is_principal member ≡ true
  pub member_of : member ≡ resolved p m

pub require_principal-IsPrincipal :
    (p : Text) {u : Unit {0}} → require_principal p ≡ ok u → is_principal p ≡ true
unfolding require_principal
require_principal-IsPrincipal p h =
    let e = throw_if-eq-ok (not (is_principal p)) _ h in ground (arith, e)

validate-IsPrincipal :
    (m : Text) {u : Unit {0}}
    → (m == signed_in_user_member) ≡ false
    → validate_configured_member m ≡ ok u
    → is_principal m ≡ true
unfolding validate_configured_member
validate-IsPrincipal m n h = elim (Bool-cases (any (λ c. (c == b'<') || (c == b'>')) m)) [
  | inl y ↦ absurd (err-eq-ok (rw y at (rw n at h)))
  | inr k ↦
      let e = throw_if-eq-ok (not (is_principal m)) _ (rw k at (rw n at h)) in ground (arith, e)
]

configured_member :
    (m p : Text)
    → (m == signed_in_user_member) ≡ false
    → resolve_member m p ≡ (validate_configured_member m >>= (λ _. ok m))
unfolding resolve_member
configured_member m p n = rw n refl

pub resolve_member-Resolves : (m p : Text) → Ensures (Resolves p m) (resolve_member m p)
unfolding resolve_member
resolve_member-Resolves m p = elim (Bool-cases (m == signed_in_user_member)) [
  | inl y ↦ rw y (
      reads (require_principal p) _ (λ u e. require_principal-IsPrincipal p e)
        (λ u q. on_ok (record { principal = q; member_of = rw y refl })))
  | inr n ↦ subst (Ensures (Resolves p m)) (sym (configured_member m p n)) (
      reads (validate_configured_member m) _ (λ u e. validate-IsPrincipal m n e)
        (λ u q. on_ok (record { principal = q; member_of = rw n refl })))
]

resolve_configured-IsResolved :
    (r : ConfiguredPermissionRequirement) (p : Text) (i : Option ℕ)
    → Ensures (IsResolved p) (resolve_configured_requirement r p i)
unfolding resolve_configured_requirement
resolve_configured-IsResolved r p i =
    reads (resolve_member r.member p) _
      (λ m e. Ensures-ok (resolve_member r.member p) (resolve_member-Resolves r.member p) e)
      (λ m q. on_ok (record { principal = q.principal; member_of = q.member_of }))

resolve_helpers-IsResolved :
    (p : Text) (i : ℕ) (hs : List ConfiguredExchangeHelperRequirement)
    → Ensures (All (IsResolved p)) (resolve_helpers p i hs)
unfolding resolve_helpers
resolve_helpers-IsResolved p i [] = on_ok tt
resolve_helpers-IsResolved p i (h ∷ hs) =
    Ensures-bind (resolve_configured_requirement (as_requirement h) p none) _
      (resolve_configured-IsResolved (as_requirement h) p none)
      (λ r q.
        Ensures-bind (resolve_helpers p i hs) _ (resolve_helpers-IsResolved p i hs)
          (λ rs qs. on_ok (record { principal = q.principal; member_of = q.member_of }, qs)))

helpers_where_included-IsResolved :
    (c : ExchangeHelperContext) (p : Text) (i : ℕ) (r : ConfiguredPermissionRequirement)
    (o : Option Bool)
    → Ensures (All (IsResolved p)) (helpers_where_included c p i r o)
unfolding helpers_where_included
helpers_where_included-IsResolved c p i r none = on_ok tt
helpers_where_included-IsResolved c p i r (some false) = on_ok tt
helpers_where_included-IsResolved c p i r (some true) =
    passes (configured_helpers c r r.exchange_helper_requirements) _
      (λ hs. resolve_helpers-IsResolved p i hs)

tool_requirements-IsResolved :
    (c : ExchangeHelperContext) (p : Text) (i : ℕ) (rs : List ConfiguredPermissionRequirement)
    → Ensures (All (IsResolved p)) (tool_requirements c p i rs)
unfolding tool_requirements
tool_requirements-IsResolved c p i [] = on_ok tt
tool_requirements-IsResolved c p i (r ∷ rs) =
    Ensures-bind (resolve_configured_requirement r p (some i)) _
      (resolve_configured-IsResolved r p (some i))
      (λ direct d.
        Ensures-bind (helpers_where_included c p i r r.include_exchange_helpers) _
          (helpers_where_included-IsResolved c p i r r.include_exchange_helpers)
          (λ helpers hs.
            Ensures-bind (tool_requirements c p (suc i) rs) _
              (tool_requirements-IsResolved c p (suc i) rs)
              (λ rest q. on_ok (d, All-append (IsResolved p) helpers rest hs q))))

preset_groups-IsResolved :
    (c : ExchangeHelperContext) (p : Text) (tools : Dict (List ConfiguredPermissionRequirement))
    → Ensures (All (GroupIsResolved p)) (preset_groups c p tools)
unfolding preset_groups
preset_groups-IsResolved c p [] = on_ok tt
preset_groups-IsResolved c p ((name, rs) ∷ tools) =
    Ensures-bind (tool_requirements c p 0 rs) _ (tool_requirements-IsResolved c p 0 rs) (λ qs q.
      Ensures-bind (preset_groups c p tools) _ (preset_groups-IsResolved c p tools)
        (λ rest k. on_ok (q, k)))

pub permission_preset-IsResolved :
    (settings : ToolPermissionSettings) (server_id p : Text) (c : ExchangeHelperContext)
    → Ensures
        (λ preset. PresetIsResolved p (some preset))
        (permission_preset_from_tool_settings settings server_id p c)
unfolding permission_preset_from_tool_settings
permission_preset-IsResolved settings server_id p c =
    passes (throw_if (not (is_route_id server_id)) _) _ (λ _.
      Ensures-bind (preset_groups c p settings.tools) _
        (preset_groups-IsResolved c p settings.tools) (λ groups q. on_ok q))
