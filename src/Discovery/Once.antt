-- ===== src/Discovery/Once.antt =====
-- A walk of internal/opcua/discovery.go browses no node again: the address space is a graph.
use opcua_mcp.Prelude.{
  has, ℕ, suc, ◌+◌, ◌≤◌, String, false, List, if◌then◌else◌, ◌≡◌, refl, ap, arith, Bool-cases,
  All-of, inl, inr, ◌==◌, string_eq, ==_iff,
}
use opcua_mcp.Prelude.Result.{Result, ok, err}
use opcua_mcp.Session.{Error}
use opcua_mcp.Discovery.{Reference, SearchConfig, Discovery, Space}
use opcua_mcp.Discovery.Walk.{
  Walk, is_critical, refs_of, retry, levels, browse_node, enter, upsert, walked, next_walk_gen,
  opening,
}
use opcua_mcp.Discovery.Rule.{walk_rule, Child}

-- `n` counts the browse requests for the node `id` in the world.
pub record Counts {W : Type 0} (sp : Space W) (id : String) (n : W → ℕ) : Type 0 where
  pub browse :
      (node : String) (w : W) → n (sp.browse node w).1 ≡ (if node == id then suc (n w) else n w)
  pub pause : (t : ℕ) (w : W) → n (sp.pause t w) ≡ n w

-- The requests that one walk may make for a node.
abbrev pub allowance : String → ℕ
allowance id = if is_critical id then 2 else 1

module _ {W : Type 0} (sp : Space W) (id : String) (n : W → ℕ) (counts : Counts sp id n) where
  refs_of-count : (x : Result Error (List Reference) × W) → n (refs_of x).1 ≡ n x.1
  refs_of-count (ok refs, w) = refl
  refs_of-count (err e, w) = refl

  retry-count :
      (node : String) (x : Result Error (List Reference) × W)
      → n (refs_of (retry sp node x)).1
        ≤ n x.1 + (if is_critical node then (if node == id then 1 else 0) else 0)
  retry-count node (ok refs, w) = omega arith
  retry-count node (err e, w) = ground (
    arith,
    refs_of-count (sp.browse node (sp.pause 100 w)),
    counts.browse node (sp.pause 100 w),
    counts.pause 100 w,
  )

  browse_node-count :
      (node : String) (w : W)
      → n (browse_node sp node w).1 ≤ n w + (if node == id then allowance node else 0)
  unfolding browse_node
  browse_node-count node w =
      ground (arith, retry-count node (sp.browse node w), counts.browse node w)

  -- The node is browsed when it is entered, and then it is `visited`.
  abbrev Spent : ℕ → Walk W → Type 0
  Spent before s =
      (has id s.visited ≡ false → n s.world ≤ before) × (n s.world ≤ before + allowance id)

  enter-Spent :
      (before : ℕ) (node : String) (s : Walk W)
      → has node s.visited ≡ false
      → Spent before s
      → Spent before (enter sp node s).1
  unfolding enter
  enter-Spent before node s new (p, q) =
      let browsed = browse_node-count node s.world in
      elim (Bool-cases (node == id)) [
        | inl same ↦
            let e = (==_iff node id).0 same in
            let before_it = p (rw e at new) in
            ((λ h. ground (arith, same)), omega (arith, rw same at browsed, ap allowance e))
        | inr other ↦
            let quiet : n (browse_node sp node s.world).1 ≤ n s.world + 0 = rw other at browsed in
            ((λ h. let early = p (rw other at h) in omega arith), omega arith)
      ]

  -- One walk asks the server for the references of a node at most once, and twice for a node that
  -- the walk retries.
  pub walked_once :
      (cfg : SearchConfig) (ds : Discovery) (w : W)
      → n (walked sp cfg ds w).world ≤ n w + allowance id
  unfolding walked upsert
  walked_once cfg ds w =
      (walk_rule sp cfg (next_walk_gen ds) (Spent (n w)) (λ left node parent depth. Unit)
        (enter-Spent (n w))
        (λ left node parent depth c v.
          All-of (Child sp cfg (next_walk_gen ds) (Spent (n w)) (λ id'. Unit) parent depth)
            (λ r. ((λ t s h. h), tt)) (browse_node sp node v).0)
        (levels cfg.max_discovery_depth) cfg.discovery_root_node "" 0 tt (opening ds w)
        ((λ new. omega arith), omega arith)).1
