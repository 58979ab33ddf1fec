-- ===== src/Tests/Tools.antt =====
-- The theorems on the tool policy and the telemetry.
use opcua_mcp.Prelude.{
  ℕ, suc, ==_iff, string_eq, ◌≡◌, refl, String, true, false, List, [], ◌∷◌, none, some, ◌⊎◌, ◌↔◌,
  inl, inr, arith,
}
use opcua_mcp.Prelude.Text.{split_comma, trim_space}
use opcua_mcp.Prelude.Result.{ok}
use opcua_mcp.ToolPolicy.{
  ToolPolicy, contains, disabled, new_tool_policy, unknown_of, tool_policy_middleware,
}
use opcua_mcp.ToolPolicy.Access.{Spelled, new_tool_policy-denies}
use opcua_mcp.Telemetry.{env_bool, resolve_enabled}
use opcua_mcp.Telemetry.OptOut.{resolve_enabled-off}

abbrev registered : List String
registered = "opcua_read" ∷ "opcua_write" ∷ "opcua_subscribe" ∷ []

abbrev policy : ToolPolicy
policy = record { read_only = true; allowed = "opcua_subscribe" ∷ [] }

-- The handler counts its runs.
abbrev handler : String → ℕ → ℕ × ℕ
handler name w = (w, suc w)

policy_built : new_tool_policy (λ names. names) true "opcua_subscribe" registered ≡ ok policy
unfolding new_tool_policy contains unknown_of split_comma trim_space
policy_built = refl

unspelled : Spelled "opcua_write" (split_comma "opcua_subscribe") → ⊥
unfolding split_comma trim_space
unspelled (inl e) = ground (arith, e, ==_iff {K = String} "opcua_subscribe" "opcua_write")
unspelled (inr e) = e

new_tool_policy-denies_example :
    tool_policy_middleware (some policy) handler "opcua_write" 0 ≡ (disabled "opcua_write", 0)
unfolding contains
new_tool_policy-denies_example =
    new_tool_policy-denies (λ names. names) "opcua_subscribe" registered policy handler
      "opcua_write" 0 policy_built refl unspelled

resolve_enabled-off_example : (resolve_enabled (λ s. s) (some "0") (some "false") ≡ false) ↔ (
    (env_bool (λ s. s) (some "0") ≡ some true)
    ⊎ ((env_bool (λ s. s) (some "0") ≡ none) × (env_bool (λ s. s) (some "false") ≡ some false)))
resolve_enabled-off_example = resolve_enabled-off (λ s. s) (some "0") (some "false")
