-- ===== src/Tests/Discovery.antt =====
-- The theorems on the discovery of nodes, on a server whose node "A" has the child "B".
use opcua_mcp.Prelude.{
  ℕ, suc, ◌+◌, ◌<◌, ◌≤◌, String, true, false, List, [], ◌∷◌, ◌++◌, none, some, ◌==◌, string_eq,
  if◌then◌else◌, ◌≡◌, refl, subst, arith, Bool-cases, inl, inr, All, ◌⊎◌,
}
use opcua_mcp.Prelude.Int.{pos}
use opcua_mcp.Prelude.Dict.{Dict, lookup, put}
use opcua_mcp.Prelude.Result.{Result, ok, ok_inj}
use opcua_mcp.Session.{Error}
use opcua_mcp.Discovery.{NodeInfo, Reference, SearchConfig, Discovery, BatchOp, Space}
use opcua_mcp.Discovery.Walk.{
  walked, kept, index_all, batch_of, update_search_index, reindex, sweep, discover_nodes, children,
  enter, browse_node, upsert, swept, walk,
}
use opcua_mcp.Discovery.Found.{Answers, IsSettled, Found, discover_nodes-Found}
use opcua_mcp.Discovery.Once.{allowance, walked_once}
use opcua_mcp.Discovery.Synced.{IndexLaws, has_key, applied, applied-append, discover_nodes-Synced}
use opcua_mcp.Discovery.Hierarchy.{
  get_node_hierarchy, climb, climb_cycle, Chain, get_node_hierarchy_ends,
  discovered_hierarchy-Chain,
}
use opcua_mcp.Discovery.Cached.{
  find_similar_nodes_from_cache, best, find_similar_nodes_from_cache-best,
}
use opcua_mcp.Discovery.Index.{Hit, SearchRequest}

abbrev reference : String → Reference
reference id = record {
  node_id = id;
  browse_name = "Pump";
  display_name = "Pump";
  node_class = "Object";
  type_definition = "i=58";
}

abbrev refs : String → List Reference
refs node = if node == "A" then reference "B" ∷ [] else []

-- A server, with what its world keeps of a browse and of a batch.
abbrev server : {W : Type 0} → (String → W → W) → (List BatchOp → W → W) → Space W
server browsed ran = record {
  is_connected = λ w. true;
  browse = λ node w. (ok (refs node), browsed node w);
  now = λ w. pos 5;
  pause = λ t w. w;
  set_discovery_stats = λ n w. w;
  can_index = λ info. true;
  run_batch = λ ops w. (none, ran ops w);
}

-- The batches so far.
abbrev indexed : Space (List BatchOp)
indexed = server (λ node w. w) (λ ops w. w ++ ops)

-- The number of browses of "B".
abbrev counting : Space ℕ
counting = server (λ node w. if node == "B" then suc w else w) (λ ops w. w)

abbrev pub config : SearchConfig
config = record {
  enable_discovery = true;
  enable_search = true;
  discovery_root_node = "A";
  max_discovery_depth = pos 3;
  max_nodes_per_browse = pos 100;
  enable_cache = true;
  search_max_results = pos 10;
}

abbrev fresh : Discovery
fresh = record { node_cache = []; walk_gen = 0; has_index = true }

settled : IsSettled fresh
settled = record { fits = omega arith; current = tt }

abbrev rank : String → ℕ
rank node = if node == "A" then 0 else 1

abbrev Edge : String → String → Type 0
Edge p c = rank p < rank c

answers :
    {W : Type 0} (browsed : String → W → W) (ran : List BatchOp → W → W)
    → Answers (server browsed ran) Edge
answers browsed ran node w found e = elim (Bool-cases (node == "A")) [
  | inl root ↦
      subst (All (λ r. rank node < rank r.node_id)) (ok_inj (rw root at e))
        (rw root (omega arith, tt))
  | inr leaf ↦ subst (All (λ r. rank node < rank r.node_id)) (ok_inj (rw leaf at e)) tt
]

discover_nodes-Found_example :
    All (Found Edge config 1) (discover_nodes indexed config fresh []).1.node_cache
discover_nodes-Found_example =
    discover_nodes-Found indexed Edge (answers (λ node w. w) (λ ops w. w ++ ops)) config fresh []
      settled refl

walked_once_example : (walked counting config fresh 0).world ≤ 0 + allowance "B"
walked_once_example =
    walked_once counting "B" (λ w. w) (record { browse = λ node w. refl; pause = λ t w. refl })
      config fresh 0

index_laws : IndexLaws indexed (λ id w. applied id w false)
index_laws = record {
  browse = λ id node w. refl;
  pause = λ id t w. refl;
  stats = λ id n w. refl;
  batch = λ id ops w e. applied-append id w ops false;
}

discover_nodes-Synced_example :
    (has_key "B" (discover_nodes indexed config fresh []).1.node_cache ≡ true)
    ⊎ ((applied "B" [] false ≡ true) × (has_key "B" fresh.node_cache ≡ false))
unfolding discover_nodes sweep reindex update_search_index batch_of index_all walked walk children
    enter browse_node upsert kept swept put
discover_nodes-Synced_example =
    discover_nodes-Synced indexed (λ id w. applied id w false) index_laws "B" config fresh [] refl
      refl refl refl refl

abbrev node : String → String → NodeInfo
node id parent = record {
  node_id = id;
  browse_name = "Pump";
  display_name = "Pump";
  node_class = "Object";
  type_definition = "i=58";
  parent_node = parent;
  depth = 1;
  last_updated = pos 5;
  seen_in_gen = 1;
}

get_node_hierarchy_ends_example :
    (path : List NodeInfo) × (get_node_hierarchy
        (discover_nodes indexed config fresh []).1.node_cache
        2
        "B"
      ≡ some path)
get_node_hierarchy_ends_example =
    get_node_hierarchy_ends indexed rank (answers (λ node w. w) (λ ops w. w ++ ops)) config fresh []
      settled refl "B"

-- "B" as the walk finds it below the root.
abbrev found_b : NodeInfo
found_b = record {
  node_id = "B";
  browse_name = "Pump";
  display_name = "Pump";
  node_class = "Object";
  type_definition = "i=58";
  parent_node = "";
  depth = 0;
  last_updated = pos 5;
  seen_in_gen = 1;
}

discovered_hierarchy-Chain_example :
    let cache = (discover_nodes indexed config fresh []).1.node_cache in
    (path : List NodeInfo) × (front : List NodeInfo) × (get_node_hierarchy cache 2 "B" ≡ some path)
    × Chain cache path
    × (path ≡ front ++ (found_b ∷ []))
unfolding discover_nodes sweep reindex update_search_index batch_of index_all walked walk children
    enter browse_node upsert kept swept put lookup
discovered_hierarchy-Chain_example =
    discovered_hierarchy-Chain indexed rank (answers (λ node w. w) (λ ops w. w ++ ops)) config fresh
      [] settled refl "B" found_b refl

-- "A" and "B", each the parent of the other.
abbrev ring : Dict String NodeInfo
ring = ("A", node "A" "B") ∷ ("B", node "B" "A") ∷ []

climb_cycle_example : climb ring 3 "A" [] ≡ none
unfolding lookup
climb_cycle_example =
    climb_cycle ring "A" "B" (node "A" "B") (node "B" "A") refl refl refl refl refl refl 3 []

abbrev bytes : String → List ℕ
bytes s = []

find_similar_nodes_from_cache-best_example :
    find_similar_nodes_from_cache (λ s. s) bytes (pos 1) "Pump" (node "A" "" ∷ node "B" "A" ∷ [])
    ≡ best (λ s. s) bytes (pos 1) "Pump" (node "A" "" ∷ node "B" "A" ∷ [])
find_similar_nodes_from_cache-best_example =
    find_similar_nodes_from_cache-best (λ s. s) bytes (pos 1) "Pump"
      (node "A" "" ∷ node "B" "A" ∷ [])

-- An index that still has a node that the cache does not have.
abbrev stale : SearchRequest → Result Error (List Hit)
stale q = ok (record { id = "gone"; score = 1 } ∷ record { id = "B"; score = 1 } ∷ [])
