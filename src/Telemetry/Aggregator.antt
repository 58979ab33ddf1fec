-- ===== src/Telemetry/Aggregator.antt =====
-- The counters of internal/telemetry/aggregator.go and `New` and the methods of
-- internal/telemetry/telemetry.go. The counters are int64, here their 64 bits.
use opcua_mcp.Prelude.{
  ℕ, ◌+◌, ◌%◌, ◌^◌, String, Bool, ◌&&◌, [], ◌∷◌, Option, none, some, ltb, string_eq, if◌then◌else◌,
}
use opcua_mcp.Prelude.Dict.{Dict, lookup, put}
use opcua_mcp.Telemetry.{normalize_error_kind}

pub record Aggregator : Type 0 where
  pub tool_calls : Dict String ℕ
  pub error_counts : Dict String ℕ
  pub cache_hits : ℕ
  pub cache_misses : ℕ
  pub tool_call_count : ℕ
  pub total_params : ℕ
  pub node_count : ℕ

pub record Snapshot : Type 0 where
  pub tool_calls : Dict String ℕ
  pub tool_call_count : ℕ
  pub total_params : ℕ
  pub cache_hits : ℕ
  pub cache_misses : ℕ
  pub error_counts : Dict String ℕ
  pub node_count : ℕ

unfoldable pub new_aggregator : Aggregator
new_aggregator = record {
  tool_calls = [];
  error_counts = [];
  cache_hits = 0;
  cache_misses = 0;
  tool_call_count = 0;
  total_params = 0;
  node_count = 0;
}

abbrev pub add64 : ℕ → ℕ → ℕ
add64 n k = (n + k) % 2 ^ 64

abbrev pub or_zero : Option ℕ → ℕ
or_zero none = 0
or_zero (some n) = n

-- `counter(m, key).Add(1)`
unfoldable pub bump : String → Dict String ℕ → Dict String ℕ
unfolding lookup put
bump key d = put key (add64 (or_zero (lookup key d)) 1) d

unfoldable pub record_tool_call : String → ℕ → Aggregator → Aggregator
unfolding bump
record_tool_call name params a = record a {
  tool_calls = bump name a.tool_calls;
  tool_call_count = add64 a.tool_call_count 1;
  total_params = add64 a.total_params params;
}

unfoldable pub record_cache_result : Bool → Aggregator → Aggregator
record_cache_result hit a =
    if hit
    then record a { cache_hits = add64 a.cache_hits 1 }
    else record a { cache_misses = add64 a.cache_misses 1 }

unfoldable pub record_error : String → Aggregator → Aggregator
unfolding bump normalize_error_kind
record_error kind a = record a { error_counts = bump (normalize_error_kind kind) a.error_counts }

unfoldable pub set_discovery_stats : ℕ → Aggregator → Aggregator
set_discovery_stats n a = record a { node_count = n }

-- n > 0, for an int64
abbrev pub is_positive : ℕ → Bool
is_positive n = ltb 0 n && ltb n (2 ^ 63)

-- What `Range` copies of a map of counters, and what it leaves of it.
unfoldable pub positive : Dict String ℕ → Dict String ℕ
positive [] = []
positive ((key, n) ∷ d) = let rest = positive d in if is_positive n then (key, n) ∷ rest else rest

unfoldable pub zeroed : Dict String ℕ → Dict String ℕ
zeroed [] = []
zeroed ((key, n) ∷ d) = (key, 0) ∷ zeroed d

unfoldable pub snapshot : Aggregator → Snapshot × Aggregator
unfolding positive zeroed
snapshot a = (
  record {
    tool_calls = positive a.tool_calls;
    tool_call_count = a.tool_call_count;
    total_params = a.total_params;
    cache_hits = a.cache_hits;
    cache_misses = a.cache_misses;
    error_counts = positive a.error_counts;
    node_count = a.node_count;
  },
  record {
    tool_calls = zeroed a.tool_calls;
    error_counts = zeroed a.error_counts;
    cache_hits = 0;
    cache_misses = 0;
    tool_call_count = 0;
    total_params = 0;
    node_count = a.node_count;
  },
)

-- `liveTelemetry` and `noopTelemetry`
pub data Telemetry : Type 0 where
  noop : Telemetry
  live : Aggregator → Telemetry

unfoldable pub new_telemetry : Bool → Telemetry
unfolding new_aggregator
new_telemetry enabled = if enabled then live new_aggregator else noop

-- The calls of the methods that record something.
pub data Event : Type 0 where
  tool_call : String → ℕ → Event
  cache_result : Bool → Event
  error : String → Event
  discovery_stats : ℕ → Event

unfoldable pub receive : Event → Aggregator → Aggregator
unfolding record_tool_call record_cache_result record_error set_discovery_stats
receive (tool_call name params) a = record_tool_call name params a
receive (cache_result hit) a = record_cache_result hit a
receive (error kind) a = record_error kind a
receive (discovery_stats n) a = set_discovery_stats n a

unfoldable pub recorded : Event → Telemetry → Telemetry
unfolding receive
recorded e noop = noop
recorded e (live a) = live (receive e a)
