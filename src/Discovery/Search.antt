-- ===== src/Discovery/Search.antt =====
-- The lookups of internal/opcua/discovery.go and its searches over the cache of nodes.
use opcua_mcp.Prelude.{
  ℕ, suc, String, Bool, true, false, not, ◌&&◌, ◌||◌, List, [], ◌∷◌, Option, none, some, ◌==◌,
  string_eq, nat_eq, if◌then◌else◌, ◌≡◌, refl, sym, ap, ◌∙◌, arith, Bool-cases, inl, inr, ◌-◌,
}
use opcua_mcp.Prelude.Int.{ℤ, pos, pos_part, lez, int_beq}
use opcua_mcp.Prelude.Text.{is_empty, contains_text}
use opcua_mcp.Prelude.Dict.{Dict, lookup, put}
use opcua_mcp.Prelude.Result.{Result, ok, err, or_err}
use opcua_mcp.Session.{Error, message}
use opcua_mcp.Discovery.{NodeInfo}
use opcua_mcp.Discovery.Cached.{select, first, first_nil, sub_zero}

abbrev pub values : Dict String NodeInfo → List NodeInfo
values [] = []
values ((id, info) ∷ d) = info ∷ values d

-- `GetNodeInfo` and `GetAllNodes`
unfoldable pub get_node_info : Dict String NodeInfo → String → Result Error NodeInfo
unfolding lookup
get_node_info cache id = or_err (lookup id cache) (message "not found in cache")

unfoldable pub get_all_nodes : Dict String NodeInfo → List NodeInfo
get_all_nodes cache = values cache

unfoldable pub get_node_by_browse_name_from_cache : String → List NodeInfo → Result Error NodeInfo
get_node_by_browse_name_from_cache name [] = err (message "not found")
get_node_by_browse_name_from_cache name (n ∷ ns) =
    let rest = get_node_by_browse_name_from_cache name ns in
    if n.browse_name == name then ok n else rest

unfoldable pub search_by_parent_from_cache : String → List NodeInfo → List NodeInfo
search_by_parent_from_cache parent [] = []
search_by_parent_from_cache parent (n ∷ ns) =
    let rest = search_by_parent_from_cache parent ns in
    if n.parent_node == parent then n ∷ rest else rest

unfoldable pub search_by_depth_from_cache : ℤ → List NodeInfo → List NodeInfo
search_by_depth_from_cache depth [] = []
search_by_depth_from_cache depth (n ∷ ns) =
    let rest = search_by_depth_from_cache depth ns in
    if int_beq (pos n.depth) depth then n ∷ rest else rest

-- `depth_distribution` of `GetCacheStats`: depthCounts[depth]++ for every node
abbrev or_zero : Option ℕ → ℕ
or_zero none = 0
or_zero (some n) = n

unfoldable pub depth_counts : List NodeInfo → Dict ℕ ℕ → Dict ℕ ℕ
unfolding lookup put
depth_counts [] counts = counts
depth_counts (n ∷ ns) counts =
    depth_counts ns (put n.depth (suc (or_zero (lookup n.depth counts))) counts)

module _ (to_lower : String → String) where
  -- The filters of `searchNodesFromCache`.
  abbrev pub passes_filters : String → String → NodeInfo → Bool
  unfolding contains_text
  passes_filters query node_class n =
      (is_empty node_class || (n.node_class == node_class))
      && (is_empty query
          || contains_text (to_lower n.browse_name) (to_lower query)
          || contains_text (to_lower n.display_name) (to_lower query))

  -- The loop of `searchNodesFromCache`, which breaks at `count` = `max` if there is a limit.
  unfoldable pub search_nodes_from_cache : String → String → ℤ → ℕ → List NodeInfo → List NodeInfo
  search_nodes_from_cache query node_class max count [] = []
  search_nodes_from_cache query node_class max count (n ∷ ns) =
      let kept = search_nodes_from_cache query node_class max (suc count) ns in
      let dropped = search_nodes_from_cache query node_class max count ns in
      if not (lez max (pos 0)) && lez max (pos count)
      then []
      else if passes_filters query node_class n
      then n ∷ kept
      else dropped

  -- What the search is to give: the nodes that pass the filters, cut at the limit if there is one.
  abbrev pub limited : ℤ → List NodeInfo → List NodeInfo
  limited max ns = if lez max (pos 0) then ns else first (pos_part max) ns

  search-unlimited :
      (query node_class : String) (max : ℤ) (count : ℕ) (ns : List NodeInfo)
      → lez max (pos 0) ≡ true
      → search_nodes_from_cache query node_class max count ns
        ≡ select (passes_filters query node_class) ns
  unfolding search_nodes_from_cache
  search-unlimited query node_class max count [] h = refl
  search-unlimited query node_class max count (n ∷ ns) h =
      let kept = search-unlimited query node_class max (suc count) ns h in
      let dropped = search-unlimited query node_class max count ns h in
      rw (search_nodes_from_cache, h, kept, dropped) refl

  search-limited :
      (query node_class : String) (max : ℤ) (count : ℕ) (ns : List NodeInfo)
      → lez max (pos 0) ≡ false
      → search_nodes_from_cache query node_class max count ns
        ≡ first (pos_part max - count) (select (passes_filters query node_class) ns)
  unfolding search_nodes_from_cache
  search-limited query node_class max count [] h = sym (first_nil (pos_part max - count))
  search-limited query node_class max count (n ∷ ns) h = elim (Bool-cases (lez max (pos count))) [
    | inl full ↦
        let left : pos_part max - count ≡ 0 = ground (arith, full) in
        rw (search_nodes_from_cache, h, full, left) refl
    | inr room ↦
        let left : pos_part max - count ≡ suc (pos_part max - suc count) = ground (arith, room) in
        elim (Bool-cases (passes_filters query node_class n)) [
          | inl pass ↦
              rw
                (
                  search_nodes_from_cache,
                  h,
                  room,
                  pass,
                  left,
                  search-limited query node_class max (suc count) ns h,
                )
                refl
          | inr fail ↦
              rw
                (
                  search_nodes_from_cache,
                  h,
                  room,
                  fail,
                  search-limited query node_class max count ns h,
                )
                refl
        ]
  ]

  -- The search over the cache gives the nodes that pass the filters, in the cache's order, cut at
  -- the limit if it is positive.
  pub search_nodes_from_cache-limited :
      (query node_class : String) (max : ℤ) (ns : List NodeInfo)
      → search_nodes_from_cache query node_class max 0 ns
        ≡ limited max (select (passes_filters query node_class) ns)
  search_nodes_from_cache-limited query node_class max ns = elim (Bool-cases (lez max (pos 0))) [
    | inl off ↦ rw off (search-unlimited query node_class max 0 ns off)
    | inr on ↦ rw on (
        search-limited query node_class max 0 ns on
        ∙ ap (λ k. first k (select (passes_filters query node_class) ns)) (sub_zero (pos_part max)))
  ]
