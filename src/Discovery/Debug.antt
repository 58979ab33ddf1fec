-- ===== src/Discovery/Debug.antt =====
-- The statistics of internal/opcua/discovery.go: GetCacheStats, GetSearchStats, DebugSearchNodes.
use Prim.Native.String.{◌++◌ as append}
use opcua_mcp.Prelude.{
  ℕ, zero, suc, String, Bool, true, List, [], ◌∷◌, Option, none, some, length, ◌==◌, string_eq,
  if◌then◌else◌,
}
use opcua_mcp.Prelude.Int.{ℤ, pos}
use opcua_mcp.Prelude.Text.{contains_text}
use opcua_mcp.Prelude.Dict.{Dict}
use opcua_mcp.Prelude.Result.{Result, ok, err}
use opcua_mcp.Session.{Error, wrap}
use opcua_mcp.Discovery.{NodeInfo, SearchConfig, Discovery}
use opcua_mcp.Discovery.Search.{values, depth_counts}
use opcua_mcp.Discovery.Index.{
  SearchRequest, Query, match_query, wildcard_query, fuzzy_query, plain,
}

pub record CacheStats : Type 0 where
  pub total_nodes : ℕ
  pub cache_enabled : Bool
  pub search_enabled : Bool
  pub discovery_enabled : Bool
  pub max_discovery_depth : ℤ
  pub max_nodes_per_browse : ℤ
  pub depth_distribution : Dict ℕ ℕ

unfoldable pub get_cache_stats : SearchConfig → Dict String NodeInfo → CacheStats
unfolding depth_counts
get_cache_stats cfg cache = record {
  total_nodes = length cache;
  cache_enabled = cfg.enable_cache;
  search_enabled = cfg.enable_search;
  discovery_enabled = cfg.enable_discovery;
  max_discovery_depth = cfg.max_discovery_depth;
  max_nodes_per_browse = cfg.max_nodes_per_browse;
  depth_distribution = depth_counts (values cache) [];
}

-- `none` where there is no index, else its document count. (The index's own statistics are left
-- out.)
abbrev pub counted : Result Error ℕ → Result Error (Option ℕ)
counted (err e) = err (wrap "failed to get document count" e)
counted (ok n) = ok (some n)

unfoldable pub get_search_stats : Bool → Result Error ℕ → Result Error (Option ℕ)
get_search_stats has_index doc_count = if has_index then counted doc_count else ok none

-- The nodes that pass a test, and the first of them.
unfoldable pub matching_nodes : (NodeInfo → Bool) → List NodeInfo → List NodeInfo
matching_nodes passes [] = []
matching_nodes passes (n ∷ ns) =
    let rest = matching_nodes passes ns in if passes n then n ∷ rest else rest

unfoldable pub first_of : ℕ → List NodeInfo → List NodeInfo
first_of zero ns = []
first_of (suc k) [] = []
first_of (suc k) (n ∷ ns) = n ∷ first_of k ns

-- One of the searches: its hits and its total, or its error.
pub record SearchTests : Type 0 where
  pub fuzzy : Result Error (ℕ × ℕ)
  pub matched : Result Error (ℕ × ℕ)
  pub wildcard : Result Error (ℕ × ℕ)

pub record DebugInfo : Type 0 where
  pub cache_stats : CacheStats
  -- `none` where the index is disabled
  pub search_stats : Option (Result Error (Option ℕ))
  pub exact_matches : ℕ
  pub partial_matches : ℕ
  pub timestamp_nodes : ℕ
  pub sample_timestamp_nodes : List NodeInfo
  pub search_tests : Option SearchTests

-- `search` gives the number of hits of a request and its total.
module _ (to_lower : String → String) (search : SearchRequest → Result Error (ℕ × ℕ))
    (doc_count : Result Error ℕ) where
  abbrev pub name_contains : String → NodeInfo → Bool
  unfolding contains_text
  name_contains part n = contains_text (to_lower n.browse_name) part

  abbrev pub try : Query → Result Error (ℕ × ℕ)
  try q = search (plain q (pos 10))

  abbrev pub search_tests_of : String → SearchTests
  search_tests_of name = record {
    fuzzy = try (fuzzy_query "browse_name" 1 name);
    matched = try (match_query "browse_name" name);
    wildcard = try (wildcard_query "browse_name" (append "*" (append name "*")));
  }

  unfoldable pub debug_search_nodes : SearchConfig → Discovery → String → DebugInfo
  unfolding get_cache_stats get_search_stats matching_nodes first_of contains_text
  debug_search_nodes cfg ds name =
      let nodes = values ds.node_cache in
      let stamps = matching_nodes (name_contains "timestamp") nodes in
      record {
        cache_stats = get_cache_stats cfg ds.node_cache;
        search_stats = if ds.has_index then some (get_search_stats true doc_count) else none;
        exact_matches = length (matching_nodes (λ n. n.browse_name == name) nodes);
        partial_matches = length (matching_nodes (name_contains (to_lower name)) nodes);
        timestamp_nodes = length stamps;
        sample_timestamp_nodes = first_of 5 stamps;
        search_tests = if ds.has_index then some (search_tests_of name) else none;
      }
