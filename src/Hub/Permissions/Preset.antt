-- ===== src/Hub/Permissions/Preset.antt =====
-- components/idthw_hub/features/permissions/lib/permissionPreset.ts: the role memberships that the
-- configured permissions need.
use id_jag_the_hard_way.Base.{
  ℕ, suc, not, Option, none, some, List, [], ◌∷◌, ◌++◌, map, nat_eq, Result, ok, ◌>>=◌, ◌>>◌,
  throw_if,
}
use id_jag_the_hard_way.Base.Text.{Text, text_eq, lit}
use id_jag_the_hard_way.Base.Dict.{Dict}
use id_jag_the_hard_way.Hub.Permissions.{
  PermissionError, invalid_route, is_route_id, PolicyRule, ConfiguredPermissionRequirement,
  ToolPermissionSettings,
}
use id_jag_the_hard_way.Hub.Permissions.Resolving.{
  PermissionRequirement, PermissionPolicyRequirement, PermissionPresetGroup, PermissionPreset,
  resolve_configured_requirement, ExchangeHelperContext, helpers_where_included,
}

unfoldable pub tool_requirements :
    ExchangeHelperContext
    → (signed_in_principal : Text) → ℕ
    → List ConfiguredPermissionRequirement
    → Result PermissionError (List PermissionRequirement)
unfolding resolve_configured_requirement helpers_where_included
tool_requirements c p index [] = ok []
tool_requirements c p index (r ∷ rs) = do
  direct ← resolve_configured_requirement r p (some index)
  helpers ← helpers_where_included c p index r r.include_exchange_helpers
  rest ← tool_requirements c p (suc index) rs
  ok (direct ∷ helpers ++ rest)

abbrev pub or_no_rules : Option (List PolicyRule) → List PolicyRule
or_no_rules none = []
or_no_rules (some ps) = ps

-- Only helpers have policies.
abbrev pub policies_of : List PermissionRequirement → List PermissionPolicyRequirement
policies_of [] = []
policies_of (r ∷ rs) =
    map
      (λ rule. record {
        rule = rule;
        role = r.role;
        tool_requirement_index = r.tool_requirement_index;
      })
      (or_no_rules r.exchange_policies)
    ++ policies_of rs

unfoldable pub preset_groups :
    ExchangeHelperContext
    → (signed_in_principal : Text) → Dict (List ConfiguredPermissionRequirement)
    → Result PermissionError (List PermissionPresetGroup)
unfolding tool_requirements
preset_groups c p [] = ok []
preset_groups c p ((name, rs) ∷ tools) = do
  requirements ← tool_requirements c p 0 rs
  rest ← preset_groups c p tools
  ok (
      record {
        label = lit "Tool: " ++ name;
        policies = policies_of requirements;
        requirements = requirements;
        tool_name = some name;
      }
      ∷ rest)

unfoldable pub permission_preset_from_tool_settings :
    ToolPermissionSettings
    → (server_id signed_in_principal : Text) → ExchangeHelperContext
    → Result PermissionError PermissionPreset
unfolding is_route_id preset_groups
permission_preset_from_tool_settings settings server_id p c = do
  throw_if (not (is_route_id server_id)) (invalid_route server_id)
  groups ← preset_groups c p settings.tools
  ok (record {
    default_permission = settings.default_permission;
    groups = groups;
    server_id = server_id;
  })
