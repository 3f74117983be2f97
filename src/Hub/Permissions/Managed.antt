-- ===== src/Hub/Permissions/Managed.antt =====
-- components/idthw_hub/features/permissions/lib/permissionPreset.ts: the role memberships that the
-- access scope of a managed route needs, added to a preset.
use id_jag_the_hard_way.Base.{
  Bool, true, false, not, ◌||◌, Option, none, some, List, [], ◌∷◌, ◌++◌, map, if◌then◌else◌, nat_eq,
  is_empty, keep_if, includes, Result, ok, ◌>>=◌, ◌>>◌,
}
use id_jag_the_hard_way.Base.Text.{Text, text_eq, lit}
use id_jag_the_hard_way.Hub.Permissions.{
  PermissionError, signed_in_user_member, AthenzRole, parse_athenz_role, role_name,
  ToolPermissionDefault, nothing, parse_access_scope,
}
use id_jag_the_hard_way.Hub.Permissions.Resolving.{
  managed, PermissionRequirement, PermissionPresetGroup, PermissionPreset, require_principal,
  identity,
}

abbrev pub managed_requirement : (label member configured role : Text) → PermissionRequirement
managed_requirement label member configured role = record {
  configured_member = configured;
  exchange_policies = none;
  label = label;
  member = member;
  role = role;
  source = managed;
  tool_requirement_index = none;
  exchange_helpers_customized = false;
  include_exchange_helpers = none;
}

-- An empty service principal is falsy.
abbrev pub source_exchanger : Option Text → AthenzRole → List PermissionRequirement
source_exchanger (some (x ∷ s)) a =
    managed_requirement (lit "MCP service can exchange from this MCP server access role") (x ∷ s)
      (x ∷ s) (role_name a.domain (a.role ++ lit "-source-exchanger"))
    ∷ []
source_exchanger _ a = []

unfoldable pub managed_requirements :
    (signed_in gateway : Text)
    → (service : Option Text) → List Text
    → Result PermissionError (List PermissionRequirement)
unfolding parse_athenz_role
managed_requirements p gateway service [] = ok []
managed_requirements p gateway service (role ∷ roles) = do
  a ← parse_athenz_role role
  rest ← managed_requirements p gateway service roles
  ok (
      managed_requirement (lit "Signed-in user can invoke this Athenz-protected MCP server") p
          signed_in_user_member role
        ∷ managed_requirement (lit "MCP Gateway can request protected MCP access") gateway gateway
            (role_name a.domain (a.role ++ lit "-jag-exchanger"))
        ∷ source_exchanger service a
      ++ rest)

unfoldable pub merge_requirements :
    (current added : List PermissionRequirement) → List PermissionRequirement
merge_requirements current added =
    current
    ++ keep_if
        (λ r.
          not (includes (map (λ q. identity q.member q.role) current) (identity r.member r.role)))
        added

abbrev pub is_none_default : Option ToolPermissionDefault → Bool
is_none_default (some nothing) = true
is_none_default _ = false

abbrev pub group_of : (label : Text) → List PermissionRequirement → PermissionPresetGroup
group_of label rs = record { label = label; policies = []; requirements = rs; tool_name = none }

abbrev pub merge_into : List PermissionRequirement → PermissionPresetGroup → PermissionPresetGroup
merge_into rs g = record g { requirements = merge_requirements g.requirements rs }

unfoldable pub add_managed :
    (server_id : Text) → List PermissionRequirement → Option PermissionPreset → PermissionPreset
unfolding merge_requirements
add_managed server_id rs none = record {
  default_permission = none;
  groups = group_of (lit "Athenz-protected MCP access") rs ∷ [];
  server_id = server_id;
}
add_managed server_id rs (some preset) = record preset {
  groups =
      map (merge_into rs) preset.groups
      ++ (if is_empty preset.groups || is_none_default preset.default_permission
          then group_of (lit "Default MCP tool access") rs ∷ []
          else []);
}

abbrev pub require_service : Option Text → Result PermissionError (Unit {0})
require_service (some (x ∷ s)) = require_principal (x ∷ s)
require_service _ = ok tt

unfoldable pub with_roles :
    Option PermissionPreset
    → (server_id signed_in gateway : Text) → (service : Option Text) → List Text
    → Result PermissionError (Option PermissionPreset)
unfolding require_principal managed_requirements add_managed
with_roles preset server_id p gateway service [] = ok preset
with_roles preset server_id p gateway service (role ∷ roles) = do
  require_principal p
  require_principal gateway
  require_service service
  rs ← managed_requirements p gateway service (role ∷ roles)
  ok (some (add_managed server_id rs preset))

unfoldable pub with_managed_access_requirements :
    Option PermissionPreset
    → (server_id : Text) → (route_access_scope : Option Text) → (signed_in gateway : Text)
    → (service : Option Text) → Result PermissionError (Option PermissionPreset)
unfolding parse_access_scope with_roles
with_managed_access_requirements preset server_id scope p gateway service = do
  roles ← parse_access_scope scope
  with_roles preset server_id p gateway service roles
