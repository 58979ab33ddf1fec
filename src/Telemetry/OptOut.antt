-- ===== src/Telemetry/OptOut.antt =====
-- When internal/telemetry/config.go turns the telemetry off.
use opcua_mcp.Prelude.{String, Bool, true, false, not, Option, none, some, ◌≡◌, ◌↔◌, ◌⊎◌, arith}
use opcua_mcp.Telemetry.{env_bool, resolve_enabled}

off_lem :
    (a b : Option Bool)
    → ((elim a [ some x ↦ not x | none ↦ elim b [ some x ↦ x | none ↦ true ] ]) ≡ false)
      ↔ ((a ≡ some true) ⊎ ((a ≡ none) × (b ≡ some false)))
off_lem none none = ground arith
off_lem none (some y) = ground arith
off_lem (some x) b = ground arith

-- The telemetry is off exactly if DO_NOT_TRACK reads as true, or if it is unset or unreadable and
-- OPCUA_MCP_TELEMETRY reads as false.
pub resolve_enabled-off :
    (to_lower : String → String) (do_not_track telemetry : Option String)
    → (resolve_enabled to_lower do_not_track telemetry ≡ false) ↔ (
        (env_bool to_lower do_not_track ≡ some true)
        ⊎ ((env_bool to_lower do_not_track ≡ none) × (env_bool to_lower telemetry ≡ some false)))
unfolding resolve_enabled
resolve_enabled-off to_lower do_not_track telemetry =
    off_lem (env_bool to_lower do_not_track) (env_bool to_lower telemetry)
