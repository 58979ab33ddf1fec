-- ===== src/Discovery/Returns.antt =====
-- What the searches of internal/opcua/discovery.go return are nodes of the cache, whatever the index
-- answers.
use opcua_mcp.Prelude.{
  string_eq, ℕ, zero, suc, String, Bool, true, List, [], ◌∷◌, ◌++◌, ◌≡◌, sym, subst, All,
  Bool-cases, Option-cases, inl, inr,
}
use opcua_mcp.Prelude.Int.{ℤ, pos, lez, pos_part}
use opcua_mcp.Prelude.Dict.{Dict, lookup, All-lookup}
use opcua_mcp.Prelude.Result.{Result, ok, err, ok_inj}
use opcua_mcp.Session.{Error}
use opcua_mcp.Discovery.{NodeInfo, SearchConfig}
use opcua_mcp.Discovery.Cached.{
  find_similar_nodes_from_cache, find_similar_nodes_from_cache-best, first, select, tier1, tier2,
  tier3,
}
use opcua_mcp.Discovery.Search.{values, passes_filters, limited, search_nodes_from_cache-limited}
use opcua_mcp.Discovery.Index.{
  Hit, SearchRequest, nodes_of, tier, or_else, uses_index, searched, find_similar_nodes,
  search_nodes, search_exact, search_wildcard, search_fuzzy, exact_request, wildcard_request,
  fuzzy_request, nodes_request,
}

module _ {ℓ} (P : NodeInfo → Type ℓ) where
  select-All : (p : NodeInfo → Bool) (ns : List NodeInfo) → All P ns → All P (select p ns)
  select-All p [] h = tt
  select-All p (n ∷ ns) (q, h) = elim (Bool-cases (p n)) [
    | inl hit ↦ rw hit (q, select-All p ns h)
    | inr miss ↦ rw miss (select-All p ns h)
  ]

  first-All : (k : ℕ) (ns : List NodeInfo) → All P ns → All P (first k ns)
  first-All zero ns h = tt
  first-All (suc k) [] h = tt
  first-All (suc k) (n ∷ ns) (q, h) = (q, first-All k ns h)

  limited-All :
      (to_lower : String → String) (max : ℤ) (ns : List NodeInfo)
      → All P ns
      → All P (limited to_lower max ns)
  limited-All to_lower max ns h = elim (Bool-cases (lez max (pos 0))) [
    | inl off ↦ rw off h
    | inr on ↦ rw on (first-All (pos_part max) ns h)
  ]

  append-All : (ms ns : List NodeInfo) → All P ms → All P ns → All P (ms ++ ns)
  append-All [] ns g h = h
  append-All (m ∷ ms) ns (q, g) h = (q, append-All ms ns g h)

  or_else-All : (ms ns : List NodeInfo) → All P ms → All P ns → All P (or_else ms ns)
  or_else-All [] ns g h = h
  or_else-All (m ∷ ms) ns g h = g

  values-All : (d : Dict String NodeInfo) → All (λ e. P e.1) d → All P (values d)
  values-All [] h = tt
  values-All ((id, n) ∷ d) (p, h) = (p, values-All d h)

  nodes_of-All :
      (passes : Hit → Bool) (cache : Dict String NodeInfo) (hits : List Hit)
      → All (λ e. P e.1) cache
      → All P (nodes_of passes cache hits)
  unfolding nodes_of
  nodes_of-All passes cache [] h = tt
  nodes_of-All passes cache (x ∷ xs) h =
      let rest = nodes_of-All passes cache xs h in
      elim (Bool-cases (passes x)) [
        | inl hit ↦ elim (Option-cases (lookup x.id cache)) [
          | inl e ↦ rw (nodes_of, hit, e) rest
          | inr (n, e) ↦ rw (nodes_of, hit, e) (All-lookup (λ e. P e.1) x.id n cache h e, rest)
        ]
        | inr miss ↦ rw (nodes_of, miss) rest
      ]

  tier-All :
      (cache : Dict String NodeInfo) (r : Result Error (List Hit))
      → All (λ e. P e.1) cache
      → All P (tier cache r)
  tier-All cache (ok hits) h = nodes_of-All (λ x. true) cache hits h
  tier-All cache (err e) h = tt

  module _ (to_lower : String → String) (bytes : String → List ℕ) (reaches : ℕ → Bool)
      (search : SearchRequest → Result Error (List Hit)) (cfg : SearchConfig) (has_index : Bool)
      (cache : Dict String NodeInfo) (h : All (λ e. P e.1) cache) where
    cached-All :
        (name : String)
        → All P (
            find_similar_nodes_from_cache to_lower bytes cfg.search_max_results name (values cache))
    cached-All name =
        let ns = values cache in
        let q = values-All cache h in
        let one = select (tier1 to_lower bytes name) ns in
        let two = select (tier2 to_lower bytes name) ns in
        let three = select (tier3 to_lower bytes name) ns in
        subst (All P)
          (sym (find_similar_nodes_from_cache-best to_lower bytes cfg.search_max_results name ns))
          (first-All (pos_part cfg.search_max_results) ((one ++ two) ++ three) (
            append-All (one ++ two) three
              (append-All one two (select-All (tier1 to_lower bytes name) ns q)
                (select-All (tier2 to_lower bytes name) ns q))
              (select-All (tier3 to_lower bytes name) ns q)))

    -- `FindSimilarNodes` returns nodes of the cache alone: what is so of every entry is so of every
    -- node that it returns, by any tier, whatever the index answers.
    find_similar_nodes-All :
        (name : String)
        → All P (find_similar_nodes to_lower bytes reaches search cfg has_index cache name)
    unfolding find_similar_nodes
    find_similar_nodes-All name =
        let cached = cached-All name in
        let exact = search_exact to_lower bytes reaches search cfg has_index cache name in
        let wild = search_wildcard to_lower bytes reaches search cfg has_index cache name in
        let fuzzy = search_fuzzy to_lower bytes reaches search cfg has_index cache name in
        let old =
          find_similar_nodes_from_cache to_lower bytes cfg.search_max_results name (values cache) in
        elim (Bool-cases (uses_index to_lower bytes reaches search cfg has_index cache)) [
          | inl on ↦
              rw (find_similar_nodes, on)
                (or_else-All exact (or_else wild (or_else fuzzy old))
                  (tier-All cache (search (exact_request cfg name)) h)
                  (or_else-All wild (or_else fuzzy old)
                    (tier-All cache (search (wildcard_request cfg name)) h)
                    (or_else-All fuzzy old (tier-All cache (search (fuzzy_request cfg name)) h)
                      cached)))
          | inr off ↦ rw (find_similar_nodes, off) cached
        ]

    searched-All :
        (passes : Hit → Bool) (r : Result Error (List Hit)) (ns : List NodeInfo)
        → searched r (λ hits. ok (nodes_of passes cache hits)) ≡ ok ns
        → All P ns
    searched-All passes (err e) ns q = cc
    searched-All passes (ok hits) ns q = subst (All P) (ok_inj q) (nodes_of-All passes cache hits h)

    -- `SearchNodes` returns nodes of the cache alone, whatever the index answers.
    pub search_nodes-All :
        (query node_class : String) (max : ℤ) (ns : List NodeInfo)
        → search_nodes to_lower bytes reaches search cfg has_index cache query node_class max
          ≡ ok ns
        → All P ns
    unfolding search_nodes
    search_nodes-All query node_class max ns q =
        elim (Bool-cases (uses_index to_lower bytes reaches search cfg has_index cache)) [
          | inl on ↦
              searched-All (λ x. reaches x.score) (search (nodes_request cfg query node_class max))
                ns (rw (search_nodes, on) at q)
          | inr off ↦ subst (All P) (ok_inj (rw (search_nodes, off) at q)) (
              subst (All P)
                (sym (search_nodes_from_cache-limited to_lower query node_class max (values cache)))
                (limited-All to_lower max
                  (select (passes_filters to_lower query node_class) (values cache))
                  (select-All (passes_filters to_lower query node_class) (values cache)
                    (values-All cache h))))
        ]
