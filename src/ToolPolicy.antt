-- ===== src/ToolPolicy.antt =====
-- internal/mcp/tool_policy.go: which tools a client may see and call. A `map[string]bool` whose
-- values are all true is the list of its keys.
pub mod Access
use opcua_mcp.Prelude.{
  String, Bool, true, false, not, ◌||◌, List, [], ◌∷◌, Option, none, some, ◌==◌, string_eq,
  if◌then◌else◌,
}
use opcua_mcp.Prelude.Text.{is_empty, trim_space, split_comma}
use opcua_mcp.Prelude.Result.{Result, ok, err}

abbrev pub read_only_tools : List String
read_only_tools =
    "opcua_read" ∷ "opcua_browse" ∷ "opcua_node_info" ∷ "opcua_server_info" ∷ "opcua_connect"
    ∷ "opcua_get_value" ∷ "opcua_browse_nodes" ∷ "opcua_get_value_by_name"
    ∷ "opcua_find_similar_nodes" ∷ "opcua_debug_search" ∷ "opcua_discovery_stats"
    ∷ "opcua_force_discovery" ∷ "opcua_ensure_server_nodes" ∷ "opcua_list_subscriptions" ∷ []

-- `m[name]` of such a map.
unfoldable pub contains : List String → String → Bool
contains [] name = false
contains (x ∷ xs) name = x == name || contains xs name

pub record ToolPolicy : Type 0 where
  pub read_only : Bool
  pub allowed : List String

-- The tools that are unknown and the tools that are valid, each sorted.
pub data Error : Type 0 where
  unknown_tools : List String → List String → Error

-- `allowed[name] = true`
abbrev pub add : String → List String → List String
add name allowed = if contains allowed name then allowed else name ∷ allowed

unfoldable pub allow_parts : List String → List String
unfolding contains
allow_parts [] = []
allow_parts (part ∷ parts) =
    let rest = allow_parts parts in
    if is_empty (trim_space part) then rest else add (trim_space part) rest

unfoldable pub parse_allowed_tools : String → List String
unfolding allow_parts
parse_allowed_tools s = allow_parts (split_comma s)

-- The allowed names that are not registered.
unfoldable pub unknown_of : List String → List String → List String
unfolding contains
unknown_of known [] = []
unknown_of known (name ∷ names) =
    let rest = unknown_of known names in if contains known name then rest else name ∷ rest

-- `sort` is `sort.Strings`.
unfoldable pub new_tool_policy :
    (List String → List String) → Bool → String → List String → Result Error ToolPolicy
unfolding parse_allowed_tools
new_tool_policy sort read_only allowed_tools registered =
    let allowed = parse_allowed_tools allowed_tools in
    elim (unknown_of registered allowed) [
      | [] ↦ ok (record { read_only = read_only; allowed = allowed })
      | name ∷ names ↦ err (unknown_tools (sort (name ∷ names)) (sort registered))
    ]

-- `none` is the nil policy.
unfoldable pub allows : Option ToolPolicy → String → Bool
unfolding contains
allows none name = true
allows (some p) name =
    if not p.read_only then true else contains read_only_tools name || contains p.allowed name

-- `toolPolicyFilter`, on the names of the tools.
unfoldable pub tool_policy_filter : Option ToolPolicy → List String → List String
unfolding allows
tool_policy_filter policy [] = []
tool_policy_filter policy (tool ∷ tools) =
    let rest = tool_policy_filter policy tools in if allows policy tool then tool ∷ rest else rest

-- The result of a call: the tool is disabled, or what its handler returns.
pub data CallResult (R : Type 0) : Type 0 where
  disabled : String → CallResult R
  handled : R → CallResult R

module _ {R W : Type 0} where
  -- `next` is the handler of a request, which names the tool.
  unfoldable pub tool_policy_middleware :
      Option ToolPolicy → (String → W → R × W) → String → W → CallResult R × W
  unfolding allows
  tool_policy_middleware policy next name w =
      if not (allows policy name)
      then (disabled name, w)
      else (let (r, w') = next name w in (handled r, w'))
