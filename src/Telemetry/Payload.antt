-- ===== src/Telemetry/Payload.antt =====
-- `buildPayload` and `flush` of internal/telemetry/telemetry.go: what is sent.
use Prim.Native.String.{◌++◌ as append}
use opcua_mcp.Prelude.{ℕ, String, [], ◌∷◌, Option, none, some, string_eq, if◌then◌else◌}
use opcua_mcp.Prelude.Int.{ℤ}
use opcua_mcp.Prelude.Dict.{Dict, put}
use opcua_mcp.Telemetry.{bucket_node_count}
use opcua_mcp.Telemetry.Aggregator.{Snapshot, Telemetry, noop, live, snapshot, is_positive}

-- The settings of `Config` that the payload has; `arch` and `os` are the program's own.
pub record Config : Type 0 where
  pub anon_id : String
  pub transport : String
  pub arch : String
  pub os : String
  pub auth_mode : String
  pub security_policy : String
  pub server_version : String

-- The value of a property: a text, an int64, or a quotient of two in floats.
pub data Prop : Type 0 where
  text : String → Prop
  number : ℕ → Prop
  quotient : ℕ → ℕ → Prop

pub record EventPayload : Type 0 where
  pub timestamp : String
  pub session_id : String
  pub event_name : String
  pub os_name : String
  pub app_version : String
  pub sdk_version : String
  pub props : Dict String Prop

abbrev pub sdk_version : String
sdk_version = "opcua-mcp-telemetry/1"

-- The loops over the counters.
unfoldable pub add_counts : String → Dict String ℕ → Dict String Prop → Dict String Prop
unfolding put
add_counts prefix [] props = props
add_counts prefix ((key, n) ∷ d) props =
    add_counts prefix d (put (append prefix key) (number n) props)

abbrev pub average : Snapshot → Prop
average snap =
    if is_positive snap.tool_call_count
    then quotient snap.total_params snap.tool_call_count
    else quotient 0 1

-- The entries that every payload has; `signed` reads the bits of an int64.
unfoldable pub fixed_props : (ℕ → ℤ) → Config → Snapshot → ℕ → Dict String Prop
unfolding bucket_node_count
fixed_props signed cfg snap seconds =
    ("avg_params_per_call", average snap)
    ∷ ("anon_id", text cfg.anon_id)
    ∷ ("session_duration_seconds", number seconds)
    ∷ ("transport", text cfg.transport)
    ∷ ("arch", text cfg.arch)
    ∷ ("auth_mode", text cfg.auth_mode)
    ∷ ("security_policy", text cfg.security_policy)
    ∷ ("discovered_node_bucket", text (bucket_node_count (signed snap.node_count)))
    ∷ ("cache_hits", number snap.cache_hits)
    ∷ ("cache_misses", number snap.cache_misses)
    ∷ ("tool_call_count", number snap.tool_call_count)
    ∷ []

unfoldable pub build_payload : (ℕ → ℤ) → String → Config → Snapshot → ℕ → EventPayload
unfolding fixed_props add_counts
build_payload signed now cfg snap seconds = record {
  timestamp = now;
  session_id = cfg.anon_id;
  event_name = "session_summary";
  os_name = cfg.os;
  app_version = cfg.server_version;
  sdk_version = sdk_version;
  props =
      add_counts "errors." snap.error_counts
        (add_counts "tool_calls." snap.tool_calls (fixed_props signed cfg snap seconds));
}

-- The event that a flush sends, and the telemetry after it; nothing is sent where it is off.
unfoldable pub flush : (ℕ → ℤ) → String → Config → ℕ → Telemetry → Option EventPayload × Telemetry
unfolding snapshot build_payload
flush signed now cfg seconds noop = (none, noop)
flush signed now cfg seconds (live a) =
    let s = snapshot a in (some (build_payload signed now cfg s.0 seconds), live s.1)
