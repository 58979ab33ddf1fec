-- ===== src/Discovery.antt =====
-- internal/opcua/discovery.go: the nodes that the walk of the address space finds, the walk with
-- its sweep, and the searches over the nodes found. The client, the clock, the telemetry and the
-- search index are the interface `Space`.
pub mod Walk
pub mod Rule
pub mod Found
pub mod Once
pub mod Synced
pub mod Hierarchy
pub mod Search
pub mod Index
pub mod Returns
pub mod Similar
pub mod Cached
pub mod Debug
pub mod Quiet
use opcua_mcp.Prelude.{ℕ, String, Bool, List, Option}
use opcua_mcp.Prelude.Int.{ℤ}
use opcua_mcp.Prelude.Dict.{Dict}
use opcua_mcp.Prelude.Result.{Result}
use opcua_mcp.Session.{Error}

pub record NodeInfo : Type 0 where
  pub node_id : String
  pub browse_name : String
  pub display_name : String
  pub node_class : String
  pub type_definition : String
  pub parent_node : String
  pub depth : ℕ
  pub last_updated : ℤ
  pub seen_in_gen : ℕ  -- uint64

-- What the walk reads of a `ua.ReferenceDescription`, each field as its `String()`.
pub record Reference : Type 0 where
  pub node_id : String
  pub browse_name : String
  pub display_name : String
  pub node_class : String
  pub type_definition : String

-- The settings of `config.SearchConfig` that the service reads; the numbers are Go's `int`.
pub record SearchConfig : Type 0 where
  pub enable_discovery : Bool
  pub enable_search : Bool
  pub enable_cache : Bool
  pub discovery_root_node : String
  pub max_discovery_depth : ℤ
  pub max_nodes_per_browse : ℤ
  pub search_max_results : ℤ

-- The service: its cache of nodes, the generation of the last walk, and whether `index` is not nil.
pub record Discovery : Type 0 where
  pub node_cache : Dict String NodeInfo
  pub walk_gen : ℕ  -- uint64
  pub has_index : Bool

-- What a bleve batch does: index a node, or delete one.
pub data BatchOp : Type 0 where
  index_node : String → NodeInfo → BatchOp
  delete_node : String → BatchOp

-- What the walk calls. `can_index` is whether `batch.Index` accepts a node.
pub record Space (W : Type 0) : Type 0 where
  pub is_connected : W → Bool
  pub browse : String → W → Result Error (List Reference) × W
  pub now : W → ℤ
  pub pause : ℕ → W → W  -- time.Sleep, in milliseconds
  pub set_discovery_stats : ℕ → W → W
  pub can_index : NodeInfo → Bool
  pub run_batch : List BatchOp → W → Option Error × W
