-- ===== src/Discovery/Walk.antt =====
-- `discoverNodes`, `discoverNodeRecursive`, `updateSearchIndex`, `ForceDiscoveryRefresh` and
-- `EnsureServerNodesIndexed` of internal/opcua/discovery.go. Walks are serialized by `discoveryMu`.
use text.Mathlib.Text.{starts_with}
use opcua_mcp.Prelude.{
  has, ℕ, zero, suc, ◌+◌, ◌%◌, ◌^◌, String, Bool, true, false, ◌&&◌, ◌||◌, List, [], ◌∷◌, ◌++◌, map,
  Option, none, some, length, nat_beq, ◌==◌, string_eq, if◌then◌else◌,
}
use opcua_mcp.Prelude.Int.{ℤ, pos, negsuc, lez}
use opcua_mcp.Prelude.Dict.{Dict, lookup, put}
use opcua_mcp.Prelude.Result.{Result, ok, err}
use opcua_mcp.Session.{Error, message, wrap}
use opcua_mcp.Discovery.{
  NodeInfo, Reference, SearchConfig, Discovery, BatchOp, index_node, delete_node, Space,
}

-- What a walk changes: `nodeCache`, the nodes of `visited`, and the world.
pub record Walk (W : Type 0) : Type 0 where
  pub cache : Dict String NodeInfo
  pub visited : List String
  pub world : W

abbrev pub is_critical : String → Bool
is_critical node = starts_with node "i=22" || starts_with node "i=17"

-- The node that a reference leads to, found below `parent` at `depth` in the walk `gen` at time `t`.
abbrev pub node_info : Reference → String → ℕ → ℤ → ℕ → NodeInfo
node_info r parent depth t gen = record {
  node_id = r.node_id;
  browse_name = r.browse_name;
  display_name = r.display_name;
  node_class = r.node_class;
  type_definition = r.type_definition;
  parent_node = parent;
  depth = depth;
  last_updated = t;
  seen_in_gen = gen;
}

-- The number of depths 0, 1, ... that are not above `MaxDiscoveryDepth`.
abbrev pub levels : ℤ → ℕ
levels (pos n) = suc n
levels (negsuc n) = 0

-- `ds.walkGen++`
abbrev pub next_walk_gen : Discovery → ℕ
next_walk_gen ds = (ds.walk_gen + 1) % 2 ^ 64

abbrev pub opening : {W : Type 0} → Discovery → W → Walk W
opening ds w = record { cache = ds.node_cache; visited = []; world = w }

-- The references of a browse, none where it failed.
abbrev pub refs_of : {W : Type 0} → Result Error (List Reference) × W → List Reference × W
refs_of (ok refs, w) = (refs, w)
refs_of (err e, w) = ([], w)

abbrev pub executed : {W : Type 0} → Option Error × W → Option Error × W
executed (none, w) = (none, w)
executed (some e, w) = (some (wrap "failed to execute search index batch" e), w)

abbrev pub updated : {W : Type 0} → Option Error × W → Option Error × W
updated (none, w) = (none, w)
updated (some e, w) = (some (wrap "failed to update search index" e), w)

module _ {W : Type 0} (sp : Space W) where
  abbrev pub retry : String → Result Error (List Reference) × W → Result Error (List Reference) × W
  retry node (ok refs, w) = (ok refs, w)
  retry node (err e, w) = if is_critical node then sp.browse node (sp.pause 100 w) else (err e, w)

  -- The references of a node, none where it could not be browsed; a critical node is asked twice.
  unfoldable pub browse_node : String → W → List Reference × W
  browse_node node w = refs_of (retry node (sp.browse node w))

  -- `visited[nodeID] = true` and the browse.
  unfoldable pub enter : String → Walk W → List Reference × Walk W
  unfolding browse_node
  enter node s =
      let b = browse_node node s.world in
      (b.0, record s { visited = node ∷ s.visited; world = b.1 })

  -- `ds.nodeCache[nodeInfo.NodeID] = nodeInfo`
  unfoldable pub upsert : NodeInfo → Walk W → Walk W
  unfolding put
  upsert info s = record s { cache = put info.node_id info s.cache }

  module _ (cfg : SearchConfig) (gen : ℕ) where
    -- The loop over the references: `visit` walks a child, `direct` counts the children so far.
    unfoldable pub children :
        (String → Walk W → ℕ × Walk W) → String → ℕ → ℕ → List Reference → Walk W → ℕ × Walk W
    unfolding upsert
    children visit parent depth direct [] s = (0, s)
    children visit parent depth direct (r ∷ rs) s =
        let child = visit r.node_id (upsert (node_info r parent depth (sp.now s.world) gen) s) in
        let rest = children visit parent depth (suc direct) rs child.1 in
        if lez cfg.max_nodes_per_browse (pos direct)
        then (0, s)
        else (suc (child.0 + rest.0), rest.1)

    -- `discoverNodeRecursive`, with `left` = MaxDiscoveryDepth + 1 - depth: the number of nodes that
    -- it counts, and what it has changed. It never returns an error.
    unfoldable pub walk : ℕ → String → String → ℕ → Walk W → ℕ × Walk W
    unfolding children enter
    walk zero node parent depth s = (0, s)
    walk (suc left) node parent depth s =
        if has node s.visited
        then (0, s)
        else (let e = enter node s in
            children (λ id t. walk left id id (suc depth) t) parent depth 0 e.0 e.1)

  -- The entries that the walk has seen, and the identifiers of the others.
  unfoldable pub kept : ℕ → Dict String NodeInfo → Dict String NodeInfo
  kept gen [] = []
  kept gen ((id, info) ∷ d) =
      let rest = kept gen d in if nat_beq info.seen_in_gen gen then (id, info) ∷ rest else rest

  unfoldable pub swept : ℕ → Dict String NodeInfo → List String
  swept gen [] = []
  swept gen ((id, info) ∷ d) =
      let rest = swept gen d in if nat_beq info.seen_in_gen gen then rest else id ∷ rest

  unfoldable pub index_all : Dict String NodeInfo → List BatchOp
  index_all [] = []
  index_all ((id, info) ∷ d) =
      let rest = index_all d in if sp.can_index info then index_node id info ∷ rest else rest

  -- The changes that a batch makes to the index.
  unfoldable pub batch_of : Dict String NodeInfo → List String → List BatchOp
  unfolding index_all
  batch_of cache gone = index_all cache ++ map delete_node gone

  unfoldable pub update_search_index : Discovery → List String → W → Option Error × W
  unfolding batch_of
  update_search_index ds gone w =
      if ds.has_index
      then executed (sp.run_batch (batch_of ds.node_cache gone) w)
      else (some (message "search index is nil"), w)

  -- The index brought up to date at the end of `discoverNodes`, if there is one.
  unfoldable pub reindex : SearchConfig → Discovery → List String → W → Option Error × W
  unfolding update_search_index
  reindex cfg ds gone w =
      if cfg.enable_search && ds.has_index
      then updated (update_search_index ds gone w)
      else (none, w)

  -- What the walk from the root leaves.
  unfoldable pub walked : SearchConfig → Discovery → W → Walk W
  unfolding walk
  walked cfg ds w =
      (walk cfg (next_walk_gen ds) (levels cfg.max_discovery_depth) cfg.discovery_root_node "" 0
        (opening ds w)).1

  -- The sweep, and the search index brought up to date.
  unfoldable pub sweep : SearchConfig → Discovery → ℕ → Walk W → Option Error × Discovery × W
  unfolding kept swept reindex
  sweep cfg ds gen end =
      let cache = kept gen end.cache in
      let ds' : Discovery = record {
        node_cache = cache;
        walk_gen = gen;
        has_index = ds.has_index;
      } in
      let w = sp.set_discovery_stats (length cache) end.world in
      let r = reindex cfg ds' (swept gen end.cache) w in (r.0, ds', r.1)

  unfoldable pub discover_nodes : SearchConfig → Discovery → W → Option Error × Discovery × W
  unfolding walked sweep
  discover_nodes cfg ds w =
      if sp.is_connected w
      then sweep cfg ds (next_walk_gen ds) (walked cfg ds w)
      else (some (message "OPC-UA client is not connected"), ds, w)

  unfoldable pub force_discovery_refresh :
      SearchConfig → Discovery → W → Option Error × Discovery × W
  unfolding discover_nodes
  force_discovery_refresh cfg ds w =
      if cfg.enable_discovery
      then discover_nodes cfg ds w
      else (some (message "discovery is disabled"), ds, w)

  -- Whether some entry is of the node.
  abbrev pub lists_node : String → Dict String NodeInfo → Bool
  lists_node id [] = false
  lists_node id ((k, info) ∷ d) = (info.node_id == id) || lists_node id d

  abbrev is_some : Option NodeInfo → Bool
  is_some none = false
  is_some (some info) = true

  unfoldable pub ensure_server_nodes_indexed :
      SearchConfig → Discovery → W → Option Error × Discovery × W
  unfolding force_discovery_refresh lookup
  ensure_server_nodes_indexed cfg ds w =
      if is_some (lookup "i=2253" ds.node_cache) && lists_node "i=2256" ds.node_cache
      then (none, ds, w)
      else force_discovery_refresh cfg ds w
