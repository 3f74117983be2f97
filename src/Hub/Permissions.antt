-- ===== src/Hub/Permissions.antt =====
-- components/idthw_hub/features/permissions/lib/permissionPreset.ts: the permissions that the tools of
-- a server are configured with, as scopes for the gateway, and as the role memberships that a user
-- is missing. An exception is a constructor, without its message.
pub mod Resolving
pub mod Preset
pub mod Managed
pub mod Published
pub mod Members
pub mod FromSettings
pub mod ManagedMembers
use id_jag_the_hard_way.Base.{
  ℕ, suc, ◌+◌, Bool, true, false, not, ◌&&◌, ◌||◌, Option, none, some, List, [], ◌∷◌, ◌++◌, map,
  if◌then◌else◌, ◌==◌, nat_eq, leb, length, all, take, drop, keep_if, is_empty, includes, Result,
  ok, err, ◌>>=◌, ◌>>◌, throw_if,
}
use id_jag_the_hard_way.Base.Text.{Text, text_eq, lit, index_of, words, unique, sort, join}
use id_jag_the_hard_way.Base.Text.Words.{blank}
use id_jag_the_hard_way.Base.Dict.{Dict}
use id_jag_the_hard_way.Hub.Input.{is_letter, is_digit, is_framed}

pub data PermissionError : Type 0 where
  invalid_role invalid_route invalid_principal unknown_placeholder invalid_audience :
      Text → PermissionError
  foreign_source_role no_signed_in_permission : PermissionError
  no_access_scope : (tool : Text) → PermissionError

abbrev pub signed_in_user_member : Text
signed_in_user_member = lit "<signed_in_user>"

abbrev pub is_alnum : ℕ → Bool
is_alnum c = is_letter c || is_digit c

abbrev pub is_name_char : ℕ → Bool
is_name_char c = is_alnum c || ((c == b'.') || ((c == b'_') || (c == b'-')))

-- `/^[A-Za-z0-9][A-Za-z0-9._-]*$/`
unfoldable pub is_name : Text → Bool
is_name [] = false
is_name (c ∷ s) = is_alnum c && all is_name_char s

-- whether a dot stands before a letter or a digit
abbrev pub has_part : Text → Bool
has_part [] = false
has_part (c ∷ []) = false
has_part (c ∷ d ∷ s) = ((c == b'.') && is_alnum d) || has_part (d ∷ s)

-- `/^[A-Za-z0-9][A-Za-z0-9._-]*\.[A-Za-z0-9][A-Za-z0-9._-]*$/`
unfoldable pub is_principal : Text → Bool
unfolding is_name
is_principal [] = false
is_principal (c ∷ s) = is_name (c ∷ s) && has_part s

-- `/^[a-z0-9](?:[a-z0-9._-]{0,251}[a-z0-9])?$/i`
unfoldable pub is_route_id : Text → Bool
unfolding is_framed
is_route_id s = leb (length s) 253 && is_framed is_alnum is_name_char s

pub record AthenzRole : Type 0 where
  pub domain : Text
  pub role : Text

-- The classes of the pattern have no colon, so the first `:role.` is the only one.
unfoldable pub split_role : Text → Option ℕ → Result PermissionError AthenzRole
unfolding is_name
split_role s none = err (invalid_role s)
split_role s (some i) =
    if is_name (take i s) && is_name (drop (i + 6) s)
    then ok (record { domain = take i s; role = drop (i + 6) s })
    else err (invalid_role s)

unfoldable pub parse_athenz_role : Text → Result PermissionError AthenzRole
unfolding split_role index_of
parse_athenz_role s = split_role s (index_of s (lit ":role."))

abbrev pub role_name : (domain role : Text) → Text
role_name domain role = domain ++ (lit ":role." ++ role)

pub record PolicyRule : Type 0 where
  pub action : Text
  pub allows : Bool
  pub resource : Text

pub record ConfiguredExchangeHelperRequirement : Type 0 where
  pub label : Text
  pub member : Text
  pub policies : Option (List PolicyRule)
  pub role : Text

pub record ConfiguredPermissionRequirement : Type 0 where
  pub exchange_helper_requirements : Option (List ConfiguredExchangeHelperRequirement)
  pub include_exchange_helpers : Option Bool
  pub label : Text
  pub member : Text
  pub role : Text

pub data ToolPermissionDefault : Type 0 where
  nothing not_defined : ToolPermissionDefault

pub record ToolPermissionSettings : Type 0 where
  pub default_permission : Option ToolPermissionDefault
  pub tools : Dict (List ConfiguredPermissionRequirement)

-- `for (const role of roles) parseAthenzRole(role)`
unfoldable pub check_roles : List Text → Result PermissionError (Unit {0})
unfolding parse_athenz_role
check_roles [] = ok tt
check_roles (r ∷ rs) = do _ ← parse_athenz_role r; check_roles rs

abbrev pub scope_words : Option Text → List Text
scope_words none = []
scope_words (some s) = unique (words s)

unfoldable pub parse_access_scope : Option Text → Result PermissionError (List Text)
unfolding check_roles
parse_access_scope scope = do check_roles (scope_words scope); ok (scope_words scope)

abbrev pub signed_in_roles : List ConfiguredPermissionRequirement → List Text
signed_in_roles [] = []
signed_in_roles (r ∷ rs) =
    if r.member == signed_in_user_member then r.role ∷ signed_in_roles rs else signed_in_roles rs

abbrev pub tool_scopes : List Text → List ConfiguredPermissionRequirement → List Text
tool_scopes route_roles rs = sort (unique (signed_in_roles rs ++ route_roles))

unfoldable pub scopes_of_tools :
    List Text → Dict (List ConfiguredPermissionRequirement) → Result PermissionError (Dict Text)
scopes_of_tools route_roles [] = ok []
scopes_of_tools route_roles ((tool, rs) ∷ tools) = do
  throw_if (is_empty (tool_scopes route_roles rs)) (no_access_scope tool)
  rest ← scopes_of_tools route_roles tools
  ok ((tool, join blank (tool_scopes route_roles rs)) ∷ rest)

unfoldable pub tool_access_scopes_from_settings :
    ToolPermissionSettings
    → (server_id : Text) → (route_access_scope : Option Text) → Result PermissionError (Dict Text)
unfolding is_route_id parse_access_scope scopes_of_tools
tool_access_scopes_from_settings settings server_id scope = do
  throw_if (not (is_route_id server_id)) (invalid_route server_id)
  route_roles ← parse_access_scope scope
  scopes_of_tools route_roles settings.tools
