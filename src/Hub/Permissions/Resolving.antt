-- ===== src/Hub/Permissions/Resolving.antt =====
-- components/idthw_hub/features/permissions/lib/permissionPreset.ts: the types of a preset, a member
-- with the signed-in user in the place of the placeholder, and the exchange helpers of a requirement.
use id_jag_the_hard_way.Base.{
  ℕ, Bool, true, not, ◌||◌, Option, none, some, List, [], ◌∷◌, ◌++◌, if◌then◌else◌, ◌==◌, nat_eq,
  is_empty, is_some, any, includes, Result, ok, err, ◌>>=◌, ◌>>◌, throw_if,
}
use id_jag_the_hard_way.Base.Text.{Text, text_eq, lit}
use id_jag_the_hard_way.Hub.Permissions.{
  PermissionError, invalid_principal, unknown_placeholder, no_signed_in_permission,
  signed_in_user_member, is_principal, AthenzRole, parse_athenz_role, role_name, PolicyRule,
  ConfiguredExchangeHelperRequirement, ConfiguredPermissionRequirement, ToolPermissionDefault,
  signed_in_roles,
}

pub data Source : Type 0 where
  helper managed tool : Source

-- `exchangePoliciesCustomized` is whether there are policies.
pub record PermissionRequirement : Type 0 where
  pub configured_member : Text
  pub exchange_policies : Option (List PolicyRule)
  pub label : Text
  pub member : Text
  pub role : Text
  pub source : Source
  pub tool_requirement_index : Option ℕ
  pub exchange_helpers_customized : Bool
  pub include_exchange_helpers : Option Bool

-- without the constants `label` and `source`
pub record PermissionPolicyRequirement : Type 0 where
  pub rule : PolicyRule
  pub role : Text
  pub tool_requirement_index : Option ℕ

pub record PermissionPresetGroup : Type 0 where
  pub label : Text
  pub policies : List PermissionPolicyRequirement
  pub requirements : List PermissionRequirement
  pub tool_name : Option Text

pub record PermissionPreset : Type 0 where
  pub default_permission : Option ToolPermissionDefault
  pub groups : List PermissionPresetGroup
  pub server_id : Text

unfoldable pub validate_configured_member : Text → Result PermissionError (Unit {0})
unfolding is_principal
validate_configured_member m =
    if m == signed_in_user_member
    then ok tt
    else if any (λ c. (c == b'<') || (c == b'>')) m
    then err (unknown_placeholder m)
    else throw_if (not (is_principal m)) (invalid_principal m)

unfoldable pub require_principal : Text → Result PermissionError (Unit {0})
unfolding is_principal
require_principal p = throw_if (not (is_principal p)) (invalid_principal p)

unfoldable pub resolve_member :
    (configured signed_in_principal : Text) → Result PermissionError Text
unfolding require_principal validate_configured_member
resolve_member m p =
    if m == signed_in_user_member
    then require_principal p >>= (λ _. ok p)
    else validate_configured_member m >>= (λ _. ok m)

unfoldable pub resolve_configured_requirement :
    ConfiguredPermissionRequirement
    → (signed_in_principal : Text) → Option ℕ
    → Result PermissionError PermissionRequirement
unfolding resolve_member
resolve_configured_requirement r p index = do
  member ← resolve_member r.member p
  ok (record {
    configured_member = r.member;
    exchange_policies = none;
    label = r.label;
    member = member;
    role = r.role;
    source = tool;
    tool_requirement_index = index;
    exchange_helpers_customized = is_some r.exchange_helper_requirements;
    include_exchange_helpers = r.include_exchange_helpers;
  })

-- A helper has no helpers of its own.
abbrev pub as_requirement : ConfiguredExchangeHelperRequirement → ConfiguredPermissionRequirement
as_requirement h = record {
  exchange_helper_requirements = none;
  include_exchange_helpers = none;
  label = h.label;
  member = h.member;
  role = h.role;
}

unfoldable pub resolve_helpers :
    (signed_in_principal : Text)
    → ℕ
    → List ConfiguredExchangeHelperRequirement
    → Result PermissionError (List PermissionRequirement)
unfolding resolve_configured_requirement
resolve_helpers p index [] = ok []
resolve_helpers p index (h ∷ hs) = do
  r ← resolve_configured_requirement (as_requirement h) p none
  rs ← resolve_helpers p index hs
  ok (
      record r {
        exchange_policies = h.policies;
        source = helper;
        tool_requirement_index = some index;
      }
      ∷ rs)

abbrev pub helpers_of_role :
    (service gateway : Text) → AthenzRole → List ConfiguredExchangeHelperRequirement
helpers_of_role service gateway a =
    record {
      label = lit "MCP Gateway can request delegated downstream access";
      member = gateway;
      policies = none;
      role = role_name a.domain (a.role ++ lit "-jag-exchanger");
    }
    ∷ record {
      label = lit "MCP service can exchange into the downstream role";
      member = service;
      policies = none;
      role = role_name a.domain (a.role ++ lit "-exchanger");
    }
    ∷ []

unfoldable pub helpers_of_roles :
    (service gateway : Text)
    → List Text
    → Result PermissionError (List ConfiguredExchangeHelperRequirement)
unfolding parse_athenz_role
helpers_of_roles service gateway [] = ok []
helpers_of_roles service gateway (r ∷ rs) = do
  a ← parse_athenz_role r
  rest ← helpers_of_roles service gateway rs
  ok (helpers_of_role service gateway a ++ rest)

abbrev pub identity : (member role : Text) → Text
identity member role = member ++ (lit "\n" ++ role)

-- the filter that keeps the first of each identity
unfoldable pub first_of_each :
    List Text → List ConfiguredExchangeHelperRequirement → List ConfiguredExchangeHelperRequirement
first_of_each seen [] = []
first_of_each seen (h ∷ hs) =
    let rest = first_of_each (identity h.member h.role ∷ seen) hs in
    if includes seen (identity h.member h.role) then rest else h ∷ rest

unfoldable pub exchange_helper_requirements :
    List ConfiguredPermissionRequirement
    → (service gateway : Text) → Result PermissionError (List ConfiguredExchangeHelperRequirement)
unfolding helpers_of_roles first_of_each
exchange_helper_requirements rs service gateway = do
  validate_configured_member service
  validate_configured_member gateway
  helpers ← helpers_of_roles service gateway (signed_in_roles rs)
  throw_if (is_empty (signed_in_roles rs)) no_signed_in_permission
  ok (first_of_each [] helpers)

pub record ExchangeHelperContext : Type 0 where
  pub gateway_principal : Option Text
  pub service_principal : Option Text

abbrev pub or_else : Option Text → Text → Text
or_else none d = d
or_else (some s) d = s

unfoldable pub configured_helpers :
    ExchangeHelperContext
    → ConfiguredPermissionRequirement
    → Option (List ConfiguredExchangeHelperRequirement)
    → Result PermissionError (List ConfiguredExchangeHelperRequirement)
unfolding exchange_helper_requirements
configured_helpers c r (some hs) = ok hs
configured_helpers c r none =
    exchange_helper_requirements (r ∷ []) (or_else c.service_principal [])
      (or_else c.gateway_principal (lit "mcp-hub.mcp-gateway"))

unfoldable pub helpers_where_included :
    ExchangeHelperContext
    → (signed_in_principal : Text) → ℕ
    → ConfiguredPermissionRequirement
    → Option Bool
    → Result PermissionError (List PermissionRequirement)
unfolding configured_helpers resolve_helpers
helpers_where_included c p index r (some true) = do
  hs ← configured_helpers c r r.exchange_helper_requirements
  resolve_helpers p index hs
helpers_where_included c p index r _ = ok []
