-- ===== src/Gateway/Protected/Scopes.antt =====
-- Which Athenz scopes a request to an MCP server needs (routes/protected.ts).
use id_jag_the_hard_way.Base.{
  Bool, false, not, Option, none, some, List, [], ◌∷◌, if◌then◌else◌, is_empty, includes, keep_if,
  Result, ok, err, ◌>>=◌, ◌==◌,
}
use id_jag_the_hard_way.Base.Text.{Text, text_eq, lit, trim, words, unique, sort, join}
use id_jag_the_hard_way.Base.Text.Words.{blank}
use id_jag_the_hard_way.Base.Dict.{Dict, get}
use id_jag_the_hard_way.Base.Json.{Value, str, obj, Fields, property}
use id_jag_the_hard_way.Base.Options.{truthy}
use id_jag_the_hard_way.Gateway.Registry.{ResolvedMcpRoute, ToolPermission, none_permission}

-- `string | string[]`
pub data HeaderValue : Type 0 where
  single : Text → HeaderValue
  many : List Text → HeaderValue

-- What the routes read of a request. `method` is Express's, `body` the parsed body, `none` where
-- there is none; `headers` are Node's, their names in lower case.
pub record McpRequest : Type 0 where
  pub method : Text
  pub body : Option Value
  pub headers : Dict HeaderValue

pub data CallError : Type 0 where
  params_not_object name_not_text : CallError
  tool_scope_not_configured : (tool_name : Text) → CallError

-- The message of a POST whose body is an object.
unfoldable pub message : McpRequest → Option Fields
message r =
    if r.method == lit "POST" then elim r.body [ some (obj fs) ↦ some fs | _ ↦ none ] else none

unfoldable pub method_of : Option Fields → Option Value
method_of none = none
method_of (some fs) = property fs (lit "method")

abbrev pub is_method : Text → Option Value → Bool
is_method name (some (str s)) = s == name
is_method name _ = false

abbrev pub public_mcp_methods : List Text
public_mcp_methods =
    lit "initialize" ∷ lit "notifications/initialized" ∷ lit "ping" ∷ lit "tools/list" ∷ []

abbrev pub is_public_method : Option Value → Bool
is_public_method (some (str s)) = includes public_mcp_methods s
is_public_method _ = false

unfoldable pub is_public_mcp_discovery_request : McpRequest → Bool
unfolding message method_of
is_public_mcp_discovery_request r = is_public_method (method_of (message r))

abbrev pub route_scope : ResolvedMcpRoute → (fallback : Text) → Text
route_scope route fallback = elim route.access_scope [ none ↦ fallback | some scope ↦ scope ]

-- `params.name`, where it is a text that is not blank
abbrev pub named_tool : Option Value → Result CallError Text
named_tool (some (str name)) = if is_empty (trim name) then err name_not_text else ok name
named_tool _ = err name_not_text

abbrev pub tool_of_params : Option Value → Result CallError Text
tool_of_params (some (obj params)) = named_tool (property params (lit "name"))
tool_of_params _ = err params_not_object

unfoldable pub tool_name : Fields → Result CallError Text
tool_name message = tool_of_params (property message (lit "params"))

-- Without a scope for the tool, the route's scope does only if the registry says so.
abbrev pub default_scope :
    (tool : Text) → Option ToolPermission → (scope : Text) → Result CallError Text
default_scope tool (some none_permission) scope = ok scope
default_scope tool _ scope = err (tool_scope_not_configured tool)

abbrev pub scope_or_default :
    (tool : Text) → Option Text → Option ToolPermission → (scope : Text) → Result CallError Text
scope_or_default tool (some scope) permission default = ok scope
scope_or_default tool none permission default = default_scope tool permission default

unfoldable pub scope_of_tool :
    Option (Dict Text) → Option ToolPermission → (default tool : Text) → Result CallError Text
scope_of_tool none permission default tool = ok default
scope_of_tool (some scopes) permission default tool =
    scope_or_default tool (truthy (get scopes tool)) permission default

unfoldable pub scope_of_message :
    Option Fields → ResolvedMcpRoute → (fallback : Text) → Result CallError Text
unfolding scope_of_tool method_of
scope_of_message none route fallback = ok (route_scope route fallback)
scope_of_message (some fs) route fallback =
    if is_method (lit "tools/call") (property fs (lit "method"))
    then tool_name fs
      >>= scope_of_tool route.tool_scopes route.default_tool_permission (route_scope route fallback)
    else ok (route_scope route fallback)

unfoldable pub access_scope_for_request :
    McpRequest → ResolvedMcpRoute → (fallback : Text) → Result CallError Text
unfolding scope_of_message
access_scope_for_request r route fallback = scope_of_message (message r) route fallback

-- `scopeValues` of routes/protected.ts
unfoldable pub scope_values : Text → List Text
scope_values scope = sort (unique (words scope))

abbrev pub joined : List Text → Option Text
joined [] = none
joined (s ∷ ss) = some (join blank (s ∷ ss))

unfoldable pub downstream_scopes : (selected route_scope : Text) → List Text
unfolding scope_values
downstream_scopes selected route_scope =
    keep_if (λ scope. not (includes (scope_values route_scope) scope)) (scope_values selected)

unfoldable pub downstream_scope_for_request :
    McpRequest → ResolvedMcpRoute → (selected fallback : Text) → Option Text
unfolding downstream_scopes message method_of
downstream_scope_for_request r route selected fallback =
    if is_method (lit "tools/call") (method_of (message r))
    then elim route.tool_scopes [
      | none ↦ none
      | some _ ↦ joined (downstream_scopes selected (route_scope route fallback))
    ]
    else none
