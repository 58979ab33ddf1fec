-- ===== src/Discovery/Found.antt =====
-- What a discovery of internal/opcua/discovery.go leaves in the cache of nodes.
use opcua_mcp.Prelude.{
  ℕ, suc, ◌+◌, ◌^◌, ◌≤◌, ◌<◌, String, true, List, [], ◌∷◌, nat_beq, nat_beq_iff, ◌≡◌, ◌≢◌, refl,
  arith, Bool-cases, All, All-of, All-impl, ◌⊎◌, inl, inr, string_eq,
}
use opcua_mcp.Prelude.Dict.{Dict, put, All-remove}
use opcua_mcp.Prelude.Result.{Result, ok, err}
use opcua_mcp.Session.{Error}
use opcua_mcp.Discovery.{NodeInfo, Reference, SearchConfig, Discovery, Space}
use opcua_mcp.Discovery.Walk.{
  Walk, levels, is_critical, retry, refs_of, browse_node, enter, upsert, kept, walked,
  next_walk_gen, opening, sweep, discover_nodes,
}
use opcua_mcp.Discovery.Rule.{walk_rule, Child}

-- An entry that the walk `gen` of the configuration has made, where `Edge` are the references.
pub record Found (Edge : String → String → Type 0) (cfg : SearchConfig) (gen : ℕ)
    (entry : String × NodeInfo) : Type 0 where
  pub key : entry.1.node_id ≡ entry.0
  pub seen : entry.1.seen_in_gen ≡ gen
  pub shallow : suc entry.1.depth ≤ levels cfg.max_discovery_depth
  pub link :
      ((entry.1.parent_node ≡ "") × Edge cfg.discovery_root_node entry.0)
      ⊎ Edge entry.1.parent_node entry.0

-- Every entry is of the last walk.
pub record IsSettled (ds : Discovery) : Type 0 where
  pub fits : ds.walk_gen < 2 ^ 64
  pub current : All (λ e. e.1.seen_in_gen ≡ ds.walk_gen) ds.node_cache

All-kept :
    {W : Type 0} (sp : Space W) (Q : String × NodeInfo → Type 0) (gen : ℕ)
    (d : Dict String NodeInfo)
    → All (λ e. (e.1.seen_in_gen ≡ gen) → Q e) d
    → All Q (kept sp gen d)
unfolding kept
All-kept sp Q gen [] h = tt
All-kept sp Q gen ((id, info) ∷ d) (p, h) = elim (Bool-cases (nat_beq info.seen_in_gen gen)) [
  | inl same ↦ rw same (p ((nat_beq_iff info.seen_in_gen gen).0 same), All-kept sp Q gen d h)
  | inr other ↦ rw other (All-kept sp Q gen d h)
]

pub next_walk_gen_ne : (ds : Discovery) → ds.walk_gen < 2 ^ 64 → ds.walk_gen ≢ next_walk_gen ds
next_walk_gen_ne ds h = ground (arith, h)

module _ {W : Type 0} (sp : Space W) (Edge : String → String → Type 0) where
  -- The server answers a browse of a node with references from it.
  abbrev pub Answers : Type 0
  Answers =
      (node : String) (w : W) (refs : List Reference)
      → (sp.browse node w).0 ≡ ok refs
      → All (λ r. Edge node r.node_id) refs

  refs_of-Edge :
      (node : String) (x : Result Error (List Reference) × W)
      → ((refs : List Reference) → x.0 ≡ ok refs → All (λ r. Edge node r.node_id) refs)
      → All (λ r. Edge node r.node_id) (refs_of x).0
  refs_of-Edge node (ok refs, w) h = h refs refl
  refs_of-Edge node (err e, w) h = tt

  retry-Edge :
      Answers
      → (node : String) (x : Result Error (List Reference) × W)
      → ((refs : List Reference) → x.0 ≡ ok refs → All (λ r. Edge node r.node_id) refs)
      → All (λ r. Edge node r.node_id) (refs_of (retry sp node x)).0
  retry-Edge answers node (ok refs, w) h = h refs refl
  retry-Edge answers node (err e, w) h = elim (Bool-cases (is_critical node)) [
    | inl asked ↦
        let w' = sp.pause 100 w in
        rw asked (refs_of-Edge node (sp.browse node w') (answers node w'))
    | inr plain ↦ rw plain tt
  ]

  browse_node-Edge :
      Answers → (node : String) (w : W) → All (λ r. Edge node r.node_id) (browse_node sp node w).0
  unfolding browse_node
  browse_node-Edge answers node w = retry-Edge answers node (sp.browse node w) (answers node w)

  module _ (cfg : SearchConfig) (gen : ℕ) where
    -- What is so of every state of the walk.
    abbrev InWalk : Walk W → Type 0
    InWalk s = All (λ e. (e.1.seen_in_gen ≡ gen) → Found Edge cfg gen e) s.cache

    -- How the walk visits a node.
    abbrev Call : ℕ → String → String → ℕ → Type 0
    Call left node parent depth =
        (left + depth ≡ levels cfg.max_discovery_depth)
        × (((parent ≡ "") × (node ≡ cfg.discovery_root_node)) ⊎ (parent ≡ node))

    link_of :
        (left : ℕ) (node parent : String) (depth : ℕ) (id : String)
        → Call left node parent depth
        → Edge node id
        → ((parent ≡ "") × Edge cfg.discovery_root_node id) ⊎ Edge parent id
    link_of left node parent depth id (n, inl (p, q)) h = inl (p, rw q at h)
    link_of left node parent depth id (n, inr p) h = inr (rw p h)

    Child-InWalk :
        (left : ℕ) (node parent : String) (depth : ℕ)
        → Call (suc left) node parent depth
        → (rs : List Reference) → All (λ r. Edge node r.node_id) rs
        → All (Child sp cfg gen InWalk (λ id. Call left id id (suc depth)) parent depth) rs
    unfolding upsert put
    Child-InWalk left node parent depth c [] h = tt
    Child-InWalk left node parent depth c (r ∷ rs) (p, h) = (
      (
        (λ t s q. (
          (λ same. record {
            key = refl;
            seen = refl;
            shallow = omega (arith, c.0);
            link = link_of (suc left) node parent depth r.node_id c p;
          }),
          All-remove (λ e. (e.1.seen_in_gen ≡ gen) → Found Edge cfg gen e) r.node_id s.cache q,
        )),
        (omega (arith, c.0), inr refl),
      ),
      Child-InWalk left node parent depth c rs h,
    )

  walked-InWalk :
      Answers
      → (cfg : SearchConfig) (ds : Discovery) (w : W) → IsSettled ds
      → InWalk cfg (next_walk_gen ds) (walked sp cfg ds w)
  unfolding walked enter
  walked-InWalk answers cfg ds w settled =
      let gen = next_walk_gen ds in
      walk_rule sp cfg gen (InWalk cfg gen) (Call cfg gen) (λ node s new p. p)
        (λ left node parent depth c v.
          Child-InWalk cfg gen left node parent depth c (browse_node sp node v).0
            (browse_node-Edge answers node v))
        (levels cfg.max_discovery_depth) cfg.discovery_root_node "" 0
        (omega arith, inl (refl, refl)) (opening ds w)
        (All-impl (λ e. e.1.seen_in_gen ≡ ds.walk_gen)
          (λ e. (e.1.seen_in_gen ≡ gen) → Found Edge cfg gen e)
          (λ e old same. absurd (next_walk_gen_ne ds settled.fits (rw old at same))) ds.node_cache
          settled.current)

  -- After a discovery every entry of the cache, whatever it held before, was found by this walk: it
  -- has the walk's generation, a depth within the limit, and a parent that references it, or none
  -- where the root references it. (The hypotheses: a browse answers with references, and the entries
  -- before were of the last walk.)
  pub discover_nodes-Found :
      Answers
      → (cfg : SearchConfig) (ds : Discovery) (w : W) → IsSettled ds
      → sp.is_connected w ≡ true
      → All (Found Edge cfg (next_walk_gen ds)) (discover_nodes sp cfg ds w).1.node_cache
  unfolding discover_nodes sweep
  discover_nodes-Found answers cfg ds w settled up = rw up (
      All-kept sp (Found Edge cfg (next_walk_gen ds)) (next_walk_gen ds) (walked sp cfg ds w).cache
        (walked-InWalk answers cfg ds w settled))

-- `discoverNodes` keeps what `IsSettled` says, on every branch.
pub discover_nodes-IsSettled :
    {W : Type 0} (sp : Space W) (cfg : SearchConfig) (ds : Discovery) (w : W)
    → IsSettled ds
    → IsSettled (discover_nodes sp cfg ds w).1
unfolding discover_nodes sweep
discover_nodes-IsSettled {W} sp cfg ds w settled = elim (Bool-cases (sp.is_connected w)) [
  | inl up ↦
      let found =
        discover_nodes-Found sp (λ p c. Unit) (λ node w refs h. All-of (λ r. Unit) (λ r. tt) refs)
          cfg ds w settled up in
      rw up (record {
        fits = ground arith;
        current =
            All-impl (Found (λ p c. Unit) cfg (next_walk_gen ds))
              (λ e. e.1.seen_in_gen ≡ next_walk_gen ds) (λ e f. f.seen)
              (kept sp (next_walk_gen ds) (walked sp cfg ds w).cache) (rw up at found);
      })
  | inr down ↦ rw down settled
]
