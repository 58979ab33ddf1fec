-- ===== src/Telemetry.antt =====
-- internal/telemetry: the opt-out of config.go, and what aggregator.go makes of an error's kind and
-- of a node count before they are sent.
pub mod OptOut
pub mod Aggregator
pub mod Payload
pub mod Middleware
pub mod Allowed
pub mod Identity
use opcua_mcp.Prelude.{
  ℕ, String, Bool, true, false, not, ◌||◌, List, [], ◌∷◌, Option, none, some, ◌==◌, string_eq,
  if◌then◌else◌,
}
use opcua_mcp.Prelude.Int.{ℤ, pos, lez}
use opcua_mcp.Prelude.Text.{trim_space}

abbrev pub spells : String → List String → Bool
spells s [] = false
spells s (x ∷ xs) = x == s || spells s xs

-- `parseBool`, with `strings.ToLower` for `to_lower`; `none` for a spelling that it does not know.
unfoldable pub parse_bool : (String → String) → String → Option Bool
parse_bool to_lower v =
    let s = to_lower (trim_space v) in
    if spells s ("1" ∷ "true" ∷ "yes" ∷ "on" ∷ [])
    then some true
    else if spells s ("0" ∷ "false" ∷ "no" ∷ "off" ∷ [])
    then some false
    else none

-- A variable of the environment, `none` if it is unset, as a Boolean.
abbrev pub env_bool : (String → String) → Option String → Option Bool
env_bool to_lower none = none
env_bool to_lower (some v) = parse_bool to_lower v

-- `resolveEnabled`, with DO_NOT_TRACK and OPCUA_MCP_TELEMETRY.
unfoldable pub resolve_enabled : (String → String) → Option String → Option String → Bool
unfolding parse_bool
resolve_enabled to_lower do_not_track telemetry = elim (env_bool to_lower do_not_track) [
  | some b ↦ not b
  | none ↦ elim (env_bool to_lower telemetry) [ some b ↦ b | none ↦ true ]
]

abbrev pub known_error_kinds : List String
known_error_kinds =
    "timeout" ∷ "connection_refused" ∷ "type_mismatch" ∷ "invalid_argument" ∷ "not_found"
    ∷ "permission_denied" ∷ "unavailable" ∷ "other" ∷ []

unfoldable pub normalize_error_kind : String → String
normalize_error_kind kind = if spells kind known_error_kinds then kind else "other"

-- `n < m`, in an int64.
abbrev below : ℤ → ℕ → Bool
below n m = not (lez (pos m) n)

unfoldable pub bucket_node_count : ℤ → String
bucket_node_count n =
    if below n 100
    then "<100"
    else if below n 1000
    then "100-1k"
    else if below n 10000
    then "1k-10k"
    else ">10k"
