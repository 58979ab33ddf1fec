-- ===== src/Discovery/Quiet.antt =====
-- A discovery of internal/opcua/discovery.go leaves alone what its calls leave alone: `n` observes a
-- number of the world, such as the requests of one kind that were sent.
use opcua_mcp.Prelude.{
  ℕ, String, List, length, Option, none, some, ◌≡◌, refl, ap, ◌∙◌, arith, Bool-cases, inl, inr,
  All-of,
}
use opcua_mcp.Prelude.Result.{Result, ok, err}
use opcua_mcp.Session.{Error}
use opcua_mcp.Discovery.{Reference, SearchConfig, Discovery, BatchOp, Space}
use opcua_mcp.Discovery.Walk.{
  Walk, levels, next_walk_gen, opening, refs_of, retry, browse_node, enter, upsert, executed,
  updated, batch_of, kept, swept, update_search_index, reindex, walked, sweep, discover_nodes,
  force_discovery_refresh, ensure_server_nodes_indexed,
}
use opcua_mcp.Discovery.Rule.{Child, walk_rule}

pub record QuietSpace {W : Type 0} (sp : Space W) (n : W → ℕ) : Type 0 where
  pub browse : (node : String) (w : W) → n (sp.browse node w).1 ≡ n w
  pub pause : (ms : ℕ) (w : W) → n (sp.pause ms w) ≡ n w
  pub stats : (k : ℕ) (w : W) → n (sp.set_discovery_stats k w) ≡ n w
  pub batch : (ops : List BatchOp) (w : W) → n (sp.run_batch ops w).1 ≡ n w

module _ {W : Type 0} (sp : Space W) (n : W → ℕ) (q : QuietSpace sp n) where
  refs_of-world : (x : Result Error (List Reference) × W) → (refs_of x).1 ≡ x.1
  refs_of-world (ok refs, w) = refl
  refs_of-world (err e, w) = refl

  retry-quiet :
      (node : String) (x : Result Error (List Reference) × W) → n (retry sp node x).1 ≡ n x.1
  retry-quiet node (ok refs, w) = refl
  retry-quiet node (err e, w) = ground (arith, q.browse node (sp.pause 100 w), q.pause 100 w)

  browse_node-quiet : (node : String) (w : W) → n (browse_node sp node w).1 ≡ n w
  unfolding browse_node
  browse_node-quiet node w =
      ap n (refs_of-world (retry sp node (sp.browse node w)))
      ∙ retry-quiet node (sp.browse node w)
      ∙ q.browse node w

  walked-quiet : (cfg : SearchConfig) (ds : Discovery) (w : W) → n (walked sp cfg ds w).world ≡ n w
  unfolding walked enter upsert
  walked-quiet cfg ds w =
      walk_rule sp cfg (next_walk_gen ds) (λ s. n s.world ≡ n w) (λ left node parent depth. Unit)
        (λ node s new g. browse_node-quiet node s.world ∙ g)
        (λ left node parent depth c v.
          All-of (Child sp cfg (next_walk_gen ds) (λ s. n s.world ≡ n w) (λ k. Unit) parent depth)
            (λ r. ((λ t s g. g), tt)) (browse_node sp node v).0)
        (levels cfg.max_discovery_depth) cfg.discovery_root_node "" 0 tt (opening ds w) refl

  executed-world : (x : Option Error × W) → (executed x).1 ≡ x.1
  executed-world (none, w) = refl
  executed-world (some e, w) = refl

  updated-world : (x : Option Error × W) → (updated x).1 ≡ x.1
  updated-world (none, w) = refl
  updated-world (some e, w) = refl

  update_search_index-quiet :
      (ds : Discovery) (gone : List String) (w : W) → n (update_search_index sp ds gone w).1 ≡ n w
  unfolding update_search_index
  update_search_index-quiet ds gone w = elim (Bool-cases ds.has_index) [
    | inl there ↦
        rw (update_search_index, there)
          (ap n (executed-world (sp.run_batch (batch_of sp ds.node_cache gone) w))
            ∙ q.batch (batch_of sp ds.node_cache gone) w)
    | inr nil ↦ rw (update_search_index, nil) refl
  ]

  reindex-quiet :
      (cfg : SearchConfig) (ds : Discovery) (gone : List String) (w : W)
      → n (reindex sp cfg ds gone w).1 ≡ n w
  unfolding reindex
  reindex-quiet cfg ds gone w = ground (
    arith,
    ap n (updated-world (update_search_index sp ds gone w)),
    update_search_index-quiet ds gone w,
  )

  sweep-quiet :
      (cfg : SearchConfig) (ds : Discovery) (gen : ℕ) (end : Walk W)
      → n (sweep sp cfg ds gen end).2 ≡ n end.world
  unfolding sweep
  sweep-quiet cfg ds gen end =
      let cache = kept sp gen end.cache in
      let ds' : Discovery = record {
        node_cache = cache;
        walk_gen = gen;
        has_index = ds.has_index;
      } in
      reindex-quiet cfg ds' (swept sp gen end.cache)
        (sp.set_discovery_stats (length cache) end.world)
      ∙ q.stats (length cache) end.world

  discover_nodes-quiet :
      (cfg : SearchConfig) (ds : Discovery) (w : W) → n (discover_nodes sp cfg ds w).2 ≡ n w
  unfolding discover_nodes
  discover_nodes-quiet cfg ds w =
      ground
        (arith, sweep-quiet cfg ds (next_walk_gen ds) (walked sp cfg ds w), walked-quiet cfg ds w)

  pub force_discovery_refresh-quiet :
      (cfg : SearchConfig) (ds : Discovery) (w : W)
      → n (force_discovery_refresh sp cfg ds w).2 ≡ n w
  unfolding force_discovery_refresh
  force_discovery_refresh-quiet cfg ds w = ground (arith, discover_nodes-quiet cfg ds w)

  pub ensure_server_nodes_indexed-quiet :
      (cfg : SearchConfig) (ds : Discovery) (w : W)
      → n (ensure_server_nodes_indexed sp cfg ds w).2 ≡ n w
  unfolding ensure_server_nodes_indexed
  ensure_server_nodes_indexed-quiet cfg ds w =
      ground (arith, force_discovery_refresh-quiet cfg ds w)
