-- ===== src/Discovery/Synced.antt =====
-- The search index of internal/opcua/discovery.go names no node that the cache of nodes does not
-- have: the walk, the sweep and the batch of `updateSearchIndex` together.
use opcua_mcp.Prelude.{
  has, ℕ, String, Bool, true, false, not, ◌&&◌, ◌||◌, List, [], ◌∷◌, ◌++◌, map, Option, none, some,
  ◌==◌, ==_iff, string_eq, ◌≡◌, refl, sym, ap, ◌∙◌, arith, Bool-cases, All-of, ◌⊎◌, inl, inr,
  length,
}
use opcua_mcp.Prelude.Dict.{Dict, put, remove}
use opcua_mcp.Prelude.Result.{Result, ok, err}
use opcua_mcp.Session.{Error}
use opcua_mcp.Discovery.{
  NodeInfo, Reference, SearchConfig, Discovery, BatchOp, index_node, delete_node, Space,
}
use opcua_mcp.Discovery.Walk.{
  Walk, refs_of, retry, levels, browse_node, enter, upsert, walked, next_walk_gen, opening, kept,
  swept, index_all, batch_of, update_search_index, reindex, executed, updated, sweep,
  discover_nodes,
}
use opcua_mcp.Discovery.Rule.{walk_rule, Child}

abbrev pub has_key : String → Dict String NodeInfo → Bool
has_key id [] = false
has_key id ((k, info) ∷ d) = (k == id) || has_key id d

-- Whether the index has a node after a batch.
abbrev pub applied : String → List BatchOp → Bool → Bool
applied id [] b = b
applied id (index_node k info ∷ ops) b = applied id ops (k == id || b)
applied id (delete_node k ∷ ops) b = applied id ops (not (k == id) && b)

-- `holds` is whether the index has a document of the node: only a batch changes that.
pub record IndexLaws {W : Type 0} (sp : Space W) (holds : String → W → Bool) : Type 0 where
  pub browse : (id node : String) (w : W) → holds id (sp.browse node w).1 ≡ holds id w
  pub pause : (id : String) (t : ℕ) (w : W) → holds id (sp.pause t w) ≡ holds id w
  pub stats : (id : String) (n : ℕ) (w : W) → holds id (sp.set_discovery_stats n w) ≡ holds id w
  pub batch :
      (id : String) (ops : List BatchOp) (w : W)
      → (sp.run_batch ops w).0 ≡ none
      → holds id (sp.run_batch ops w).1 ≡ applied id ops (holds id w)

has_key-remove :
    (id k : String) (d : Dict String NodeInfo)
    → has_key id d ≡ true
    → (k == id) || has_key id (remove k d) ≡ true
unfolding remove
has_key-remove id k [] h = ground (arith, h)
has_key-remove id k ((j, info) ∷ d) h =
    ground (arith, has_key-remove id k d, ==_iff j k, ==_iff j id, ==_iff k id)

pub applied-append :
    (id : String) (xs ys : List BatchOp) (b : Bool)
    → applied id (xs ++ ys) b ≡ applied id ys (applied id xs b)
applied-append id [] ys b = refl
applied-append id (index_node k info ∷ xs) ys b = applied-append id xs ys (k == id || b)
applied-append id (delete_node k ∷ xs) ys b = applied-append id xs ys (not (k == id) && b)

applied-delete :
    (id : String) (gone : List String) (b : Bool)
    → applied id (map delete_node gone) b ≡ true
    → (b ≡ true) × (has id gone ≡ false)
applied-delete id [] b h = (h, refl)
applied-delete id (k ∷ gone) b h = ground (arith, applied-delete id gone (not (k == id) && b) h)

updated-executed :
    {W : Type 0} (x : Option Error × W)
    → (updated (executed x)).0 ≡ none
    → (x.0 ≡ none) × ((updated (executed x)).1 ≡ x.1)
updated-executed (none, w) h = (refl, refl)
updated-executed (some e, w) h = ground (arith, h)

module _ {W : Type 0} (sp : Space W) where
  reindex-batch :
      (cfg : SearchConfig) (ds : Discovery) (gone : List String) (w : W)
      → cfg.enable_search ≡ true
      → ds.has_index ≡ true
      → (reindex sp cfg ds gone w).0 ≡ none
      → ((sp.run_batch (batch_of sp ds.node_cache gone) w).0 ≡ none)
        × ((reindex sp cfg ds gone w).1 ≡ (sp.run_batch (batch_of sp ds.node_cache gone) w).1)
  unfolding reindex update_search_index
  reindex-batch cfg ds gone w search index e =
      let b = sp.run_batch (batch_of sp ds.node_cache gone) w in
      let r = updated-executed b (rw (search, index) at e) in (r.0, rw (search, index) r.1)

  applied-index :
      (id : String) (d : Dict String NodeInfo) (b : Bool)
      → applied id (index_all sp d) b ≡ true
      → has_key id d || b ≡ true
  unfolding index_all
  applied-index id [] b h = h
  applied-index id ((k, info) ∷ d) b h = elim (Bool-cases (sp.can_index info)) [
    | inl able ↦ let rest = applied-index id d (k == id || b) (rw able at h) in ground (arith, rest)
    | inr unable ↦ let rest = applied-index id d b (rw unable at h) in ground (arith, rest)
  ]

  kept-or-swept :
      (id : String) (gen : ℕ) (d : Dict String NodeInfo)
      → has_key id d ≡ true
      → has_key id (kept sp gen d) || has id (swept sp gen d) ≡ true
  unfolding kept swept
  kept-or-swept id gen [] h = h
  kept-or-swept id gen ((k, info) ∷ d) h = ground (arith, kept-or-swept id gen d)

  module _ (holds : String → W → Bool) (laws : IndexLaws sp holds) (id : String) where
    refs_of-holds : (x : Result Error (List Reference) × W) → holds id (refs_of x).1 ≡ holds id x.1
    refs_of-holds (ok refs, w) = refl
    refs_of-holds (err e, w) = refl

    retry-holds :
        (node : String) (x : Result Error (List Reference) × W)
        → holds id (refs_of (retry sp node x)).1 ≡ holds id x.1
    retry-holds node (ok refs, w) = refl
    retry-holds node (err e, w) =
        let w' = sp.pause 100 w in
        ground
          (arith, refs_of-holds (sp.browse node w'), laws.browse id node w', laws.pause id 100 w)

    browse_node-holds : (node : String) (w : W) → holds id (browse_node sp node w).1 ≡ holds id w
    unfolding browse_node
    browse_node-holds node w = retry-holds node (sp.browse node w) ∙ laws.browse id node w

    -- The walk leaves the index as it is, and loses no node.
    abbrev Grown : Discovery → W → Walk W → Type 0
    Grown ds w s =
        (holds id s.world ≡ holds id w)
        × (has_key id ds.node_cache ≡ true → has_key id s.cache ≡ true)

    walked-Grown : (cfg : SearchConfig) (ds : Discovery) (w : W) → Grown ds w (walked sp cfg ds w)
    unfolding walked enter upsert put
    walked-Grown cfg ds w =
        walk_rule sp cfg (next_walk_gen ds) (Grown ds w) (λ left node parent depth. Unit)
          (λ node s new g. (browse_node-holds node s.world ∙ g.0, g.1))
          (λ left node parent depth c v.
            All-of (Child sp cfg (next_walk_gen ds) (Grown ds w) (λ k. Unit) parent depth)
              (λ r. ((λ t s g. (g.0, (λ old. has_key-remove id r.node_id s.cache (g.1 old)))), tt))
              (browse_node sp node v).0)
          (levels cfg.max_discovery_depth) cfg.discovery_root_node "" 0 tt (opening ds w)
          (refl, (λ old. old))

    batch-has_key :
        (gen : ℕ) (end : Walk W) (b : Bool)
        → (b ≡ true → has_key id end.cache ≡ true)
        → applied id (batch_of sp (kept sp gen end.cache) (swept sp gen end.cache)) b ≡ true
        → has_key id (kept sp gen end.cache) ≡ true
    unfolding batch_of
    batch-has_key gen end b old h =
        let (now, stays) =
          applied-delete id (swept sp gen end.cache)
            (applied id (index_all sp (kept sp gen end.cache)) b)
            (sym (
                applied-append id (index_all sp (kept sp gen end.cache))
                  (map delete_node (swept sp gen end.cache)) b)
              ∙ h) in
        let found = applied-index id (kept sp gen end.cache) b now in
        let split = kept-or-swept id gen end.cache in ground (arith, found, stays, old, split)

    -- What the cache had before: what the sweep removes from it leaves the index with it.
    discover_nodes-kept :
        (cfg : SearchConfig) (ds : Discovery) (w : W)
        → cfg.enable_search ≡ true
        → ds.has_index ≡ true
        → sp.is_connected w ≡ true
        → (discover_nodes sp cfg ds w).0 ≡ none
        → (holds id w ≡ true → has_key id ds.node_cache ≡ true)
        → holds id (discover_nodes sp cfg ds w).2 ≡ true
        → has_key id (discover_nodes sp cfg ds w).1.node_cache ≡ true
    unfolding discover_nodes sweep
    discover_nodes-kept cfg ds w search index up no_error old h =
        let gen = next_walk_gen ds in
        let end = walked sp cfg ds w in
        let cache = kept sp gen end.cache in
        let gone = swept sp gen end.cache in
        let ds' : Discovery = record {
          node_cache = cache;
          walk_gen = gen;
          has_index = ds.has_index;
        } in
        let v = sp.set_discovery_stats (length cache) end.world in
        let (done_well, world) = reindex-batch cfg ds' gone v search index (rw up at no_error) in
        let g = walked-Grown cfg ds w in
        let before = laws.stats id (length cache) end.world ∙ g.0 in
        let after =
          sym (laws.batch id (batch_of sp cache gone) v done_well)
          ∙ ap (holds id) (sym world)
          ∙ (rw up at h) in
        rw up (batch-has_key gen end (holds id v) (λ held. g.1 (old (sym before ∙ held))) after)

    -- When a discovery has brought the search index up to date without an error, every node in the
    -- index is in the cache, except one that was in the index and not in the cache before the
    -- discovery (as in the index of an earlier process).
    pub discover_nodes-Synced :
        (cfg : SearchConfig) (ds : Discovery) (w : W)
        → cfg.enable_search ≡ true
        → ds.has_index ≡ true
        → sp.is_connected w ≡ true
        → (discover_nodes sp cfg ds w).0 ≡ none
        → holds id (discover_nodes sp cfg ds w).2 ≡ true
        → (has_key id (discover_nodes sp cfg ds w).1.node_cache ≡ true)
          ⊎ ((holds id w ≡ true) × (has_key id ds.node_cache ≡ false))
    discover_nodes-Synced cfg ds w search index up no_error h =
        let kept_by : (holds id w ≡ true → has_key id ds.node_cache ≡ true)
            → has_key id (discover_nodes sp cfg ds w).1.node_cache ≡ true =
          λ old. discover_nodes-kept cfg ds w search index up no_error old h in
        elim (Bool-cases (has_key id ds.node_cache)) [
          | inl cached ↦ inl (kept_by (λ held. cached))
          | inr uncached ↦ elim (Bool-cases (holds id w)) [
            | inl held ↦ inr (held, uncached)
            | inr free ↦ inl (kept_by (λ held. ground (arith, held, free)))
          ]
        ]
