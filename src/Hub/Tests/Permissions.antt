-- ===== src/Hub/Tests/Permissions.antt =====
-- Permission presets and tool scopes of components/idthw_hub.
use id_jag_the_hard_way.Base.{◌≡◌, refl, true, false, none, some, List, [], ◌∷◌, ok}
use id_jag_the_hard_way.Base.Text.{
  lit, text_beq, unique, words, nonempty, split_spaces, trim, sort, join,
}
use id_jag_the_hard_way.Base.Dict.{get}
use id_jag_the_hard_way.Hub.Permissions.{
  ConfiguredPermissionRequirement, ToolPermissionSettings, nothing, signed_in_user_member,
  parse_athenz_role, tool_access_scopes_from_settings,
}
use id_jag_the_hard_way.Hub.Permissions.Resolving.{
  helper, tool, PermissionRequirement, PermissionPreset,
}
use id_jag_the_hard_way.Hub.Permissions.Managed.{managed_requirement, group_of}
use id_jag_the_hard_way.Hub.Permissions.Published.{IsPublished, tool_access_scopes-IsPublished}

abbrev reader : ConfiguredPermissionRequirement
reader = record {
  exchange_helper_requirements = some (
      record {
        label = lit "Exchange";
        member = lit "hub.service";
        policies = none;
        role = lit "docs:role.x";
      }
      ∷ []);
  include_exchange_helpers = some true;
  label = lit "Read";
  member = signed_in_user_member;
  role = lit "docs:role.read";
}

abbrev settings : ToolPermissionSettings
settings = record { default_permission = some nothing; tools = (lit "list", reader ∷ []) ∷ [] }

abbrev resolved_tool : PermissionRequirement
resolved_tool = record {
  configured_member = signed_in_user_member;
  exchange_policies = none;
  label = lit "Read";
  member = lit "user.ann";
  role = lit "docs:role.read";
  source = tool;
  tool_requirement_index = some 0;
  exchange_helpers_customized = true;
  include_exchange_helpers = some true;
}

abbrev resolved_helper : PermissionRequirement
resolved_helper = record {
  configured_member = lit "hub.service";
  exchange_policies = none;
  label = lit "Exchange";
  member = lit "hub.service";
  role = lit "docs:role.x";
  source = helper;
  tool_requirement_index = some 0;
  exchange_helpers_customized = false;
  include_exchange_helpers = none;
}

abbrev preset : PermissionPreset
preset = record {
  default_permission = some nothing;
  groups =
      record {
        label = lit "Tool: list";
        policies = [];
        requirements = resolved_tool ∷ resolved_helper ∷ [];
        tool_name = some (lit "list");
      }
      ∷ [];
  server_id = lit "docs";
}

abbrev added : List PermissionRequirement
added =
    managed_requirement (lit "Signed-in user can invoke this Athenz-protected MCP server")
      (lit "user.ann") signed_in_user_member (lit "mcp:role.use")
    ∷ managed_requirement (lit "MCP Gateway can request protected MCP access") (lit "hub.gateway")
        (lit "hub.gateway") (lit "mcp:role.use-jag-exchanger")
    ∷ []

abbrev managed_preset : PermissionPreset
managed_preset = record {
  default_permission = some nothing;
  groups =
      record {
        label = lit "Tool: list";
        policies = [];
        requirements = resolved_tool ∷ resolved_helper ∷ added;
        tool_name = some (lit "list");
      }
      ∷ group_of (lit "Default MCP tool access") added
      ∷ [];
  server_id = lit "docs";
}

published :
    tool_access_scopes_from_settings settings
      (lit "docs")
      (some (lit "mcp:role.use docs:role.read"))
    ≡ ok ((lit "list", lit "docs:role.read mcp:role.use") ∷ [])
unfolding tool_access_scopes_from_settings unique words nonempty split_spaces trim text_beq sort
    join
published = refl

found : get settings.tools (lit "list") ≡ some (reader ∷ [])
unfolding get text_beq
found = refl

reader_role :
    parse_athenz_role (lit "docs:role.read")
    ≡ ok (record { domain = lit "docs"; role = lit "read" })
unfolding parse_athenz_role
reader_role = refl

tool_access_scopes-IsPublished_example :
    IsPublished
      (some (lit "mcp:role.use docs:role.read"))
      (reader ∷ [])
      (some (lit "docs:role.read mcp:role.use"))
unfolding get text_beq
tool_access_scopes-IsPublished_example =
    tool_access_scopes-IsPublished settings (lit "docs") (some (lit "mcp:role.use docs:role.read"))
      (lit "list") published found
      ((record { domain = lit "docs"; role = lit "read" }, reader_role), tt)
