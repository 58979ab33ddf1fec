-- ===== src/Discovery/Rule.antt =====
-- What the walk of internal/opcua/discovery.go keeps: a predicate that a browse and an upsert keep
-- holds after the walk.
use opcua_mcp.Prelude.{
  has, string_eq, ℕ, zero, suc, String, false, List, [], ◌∷◌, ◌≡◌, Bool-cases, All, inl, inr,
}
use opcua_mcp.Prelude.Int.{ℤ, pos, lez}
use opcua_mcp.Discovery.{Reference, SearchConfig, Space}
use opcua_mcp.Discovery.Walk.{Walk, node_info, browse_node, enter, upsert, children, walk}

module _ {ℓ} {W : Type 0} (sp : Space W) (cfg : SearchConfig) (gen : ℕ) (P : Walk W → Type ℓ) where
  -- A child may be entered into the cache, and be visited as `Call` says.
  abbrev pub Child : (String → Type 0) → String → ℕ → Reference → Type ℓ
  Child Call parent depth r =
      ((t : ℤ) (s : Walk W) → P s → P (upsert sp (node_info r parent depth t gen) s))
      × Call r.node_id

  children_rule :
      (Call : String → Type 0) (visit : String → Walk W → ℕ × Walk W)
      → ((id : String) (s : Walk W) → Call id → P s → P (visit id s).1)
      → (parent : String) (depth direct : ℕ) (rs : List Reference) (s : Walk W)
      → All (Child Call parent depth) rs
      → P s
      → P (children sp cfg gen visit parent depth direct rs s).1
  unfolding children
  children_rule Call visit keep parent depth direct [] s h p = p
  children_rule Call visit keep parent depth direct (r ∷ rs) s ((up, c), h) p =
      let s1 = upsert sp (node_info r parent depth (sp.now s.world) gen) s in
      let rest =
        children_rule Call visit keep parent depth (suc direct) rs (visit r.node_id s1).1 h
          (keep r.node_id s1 c (up (sp.now s.world) s p)) in
      elim (Bool-cases (lez cfg.max_nodes_per_browse (pos direct))) [
        | inl full ↦ rw full p
        | inr room ↦ rw room rest
      ]

  pub walk_rule :
      (Call : ℕ → String → String → ℕ → Type 0)
      → ((node : String) (s : Walk W) → has node s.visited ≡ false → P s → P (enter sp node s).1)
      → ((left : ℕ) (node parent : String) (depth : ℕ)
          → Call (suc left) node parent depth
          → (w : W)
          → All (Child (λ id. Call left id id (suc depth)) parent depth) (browse_node sp node w).0)
      → (left : ℕ) (node parent : String) (depth : ℕ) → Call left node parent depth
      → (s : Walk W) → P s
      → P (walk sp cfg gen left node parent depth s).1
  unfolding walk enter
  walk_rule Call on_enter on_child zero node parent depth c s p = p
  walk_rule Call on_enter on_child (suc left) node parent depth c s p =
      elim (Bool-cases (has node s.visited)) [
        | inl seen ↦ rw (walk, seen) p
        | inr new ↦
            rw (walk, new)
              (children_rule (λ id. Call left id id (suc depth))
                (λ id t. walk sp cfg gen left id id (suc depth) t)
                (λ id t k q. walk_rule Call on_enter on_child left id id (suc depth) k t q) parent
                depth 0 (enter sp node s).0 (enter sp node s).1
                (on_child left node parent depth c s.world) (on_enter node s new p))
      ]
