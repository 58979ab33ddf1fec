-- ===== src/Discovery/Hierarchy.antt =====
-- `GetNodeHierarchy` of internal/opcua/discovery.go: the path of parents of a node.
use opcua_mcp.Prelude.{
  ℕ, zero, suc, ◌<◌, String, Bool, true, false, List, [], ◌∷◌, ◌++◌, Option, none, some, ◌==◌,
  ==_iff, string_eq, if◌then◌else◌, ◌≡◌, refl, sym, ap, subst, arith, All, All-impl, some_inj,
  append_assoc, Option-cases, Bool-cases, ◌∙◌, ◌⊎◌, inl, inr, ◌||◌,
}
use opcua_mcp.Prelude.Dict.{Dict, lookup, All-lookup}
use opcua_mcp.Discovery.{NodeInfo, SearchConfig, Discovery, Space}
use opcua_mcp.Discovery.Walk.{discover_nodes, next_walk_gen}
use opcua_mcp.Discovery.Found.{Answers, IsSettled, Found, discover_nodes-Found}

-- The loop ends at this entry: it has no parent, or is its own.
abbrev pub is_top : String → NodeInfo → Bool
is_top id info = (info.parent_node == "") || (info.parent_node == id)

-- The loop, with its `hierarchy` so far, on fuel; `none` if the fuel is used up.
unfoldable pub climb : Dict String NodeInfo → ℕ → String → List NodeInfo → Option (List NodeInfo)
unfolding lookup
climb cache zero id path = none
climb cache (suc fuel) id path = elim (lookup id cache) [
  | none ↦ some path
  | some info ↦
      if is_top id info then some (info ∷ path) else climb cache fuel info.parent_node (info ∷ path)
]

unfoldable pub get_node_hierarchy : Dict String NodeInfo → ℕ → String → Option (List NodeInfo)
unfolding climb
get_node_hierarchy cache fuel id = climb cache fuel id []

module _ (cache : Dict String NodeInfo) where
  climb-none :
      (fuel : ℕ) (id : String) (path : List NodeInfo)
      → lookup id cache ≡ none
      → climb cache (suc fuel) id path ≡ some path
  unfolding climb
  climb-none fuel id path p = rw (climb, p) refl

  climb_top :
      (fuel : ℕ) (id : String) (path : List NodeInfo) (info : NodeInfo)
      → lookup id cache ≡ some info
      → is_top id info ≡ true
      → climb cache (suc fuel) id path ≡ some (info ∷ path)
  unfolding climb
  climb_top fuel id path info p q = rw (climb, p, q) refl

  climb_up :
      (fuel : ℕ) (id : String) (path : List NodeInfo) (info : NodeInfo)
      → lookup id cache ≡ some info
      → is_top id info ≡ false
      → climb cache (suc fuel) id path ≡ climb cache fuel info.parent_node (info ∷ path)
  unfolding climb
  climb_up fuel id path info p q = rw (climb, p, q) refl

  -- Where the parents of entries rank below them, `rank` bounds the rounds.
  abbrev pub Ranked : (String → ℕ) → Type 0
  Ranked rank =
      (id : String) (info : NodeInfo)
      → lookup id cache ≡ some info
      → (info.parent_node ≡ "") ⊎ (rank info.parent_node < rank id)

  climb_ends :
      (rank : String → ℕ)
      → Ranked rank
      → (fuel : ℕ) (id : String) (path : List NodeInfo) → rank id < fuel
      → (hierarchy : List NodeInfo) × (climb cache fuel id path ≡ some hierarchy)
  climb_ends rank ranked zero id path h = ground arith
  climb_ends rank ranked (suc fuel) id path h = elim (Option-cases (lookup id cache)) [
    | inl p ↦ (path, climb-none fuel id path p)
    | inr (info, p) ↦ elim (Bool-cases (is_top id info)) [
      | inl q ↦ (info ∷ path, climb_top fuel id path info p q)
      | inr q ↦ elim (ranked id info p) [
        | inl root ↦ ground (arith, root, q, ==_iff info.parent_node "")
        | inr below ↦
            let (t, e) = climb_ends rank ranked fuel info.parent_node (info ∷ path) (omega arith) in
            (t, climb_up fuel id path info p q ∙ e)
      ]
    ]
  ]

  -- Two nodes that are each other's parents: whatever the fuel, the loop of `GetNodeHierarchy` is
  -- not at its end.
  pub climb_cycle :
      (a b : String) (x y : NodeInfo)
      → lookup a cache ≡ some x
      → x.parent_node ≡ b
      → is_top a x ≡ false
      → lookup b cache ≡ some y
      → y.parent_node ≡ a
      → is_top b y ≡ false
      → (fuel : ℕ) (path : List NodeInfo) → climb cache fuel a path ≡ none
  unfolding climb
  climb_cycle a b x y p p' q r r' s zero path = refl
  climb_cycle a b x y p p' q r r' s (suc fuel) path =
      climb_up fuel a path x p q
      ∙ ap (λ id. climb cache fuel id (x ∷ path)) p'
      ∙ climb_cycle b a y x r r' s p p' q fuel (x ∷ path)

  -- Each entry is the parent of the next.
  abbrev pub Chain : List NodeInfo → Type 0
  Chain [] = Unit
  Chain (x ∷ []) = Unit
  Chain (x ∷ y ∷ path) = (y.parent_node ≡ x.node_id) × Chain (y ∷ path)

  abbrev Leads : String → List NodeInfo → Type 0
  Leads id [] = Unit
  Leads id (x ∷ path) = x.parent_node ≡ id

  Chain-cons :
      (id : String) (info : NodeInfo) (path : List NodeInfo)
      → info.node_id ≡ id
      → Leads id path
      → Chain path
      → Chain (info ∷ path)
  Chain-cons id info [] e l c = tt
  Chain-cons id info (x ∷ path) e l c = (l ∙ sym e, c)

  climb-Chain :
      All (λ e. e.1.node_id ≡ e.0) cache
      → (fuel : ℕ) (id : String) (path t : List NodeInfo) → Leads id path
      → Chain path
      → climb cache fuel id path ≡ some t
      → Chain t × (front : List NodeInfo) × (t ≡ front ++ path)
  unfolding climb
  climb-Chain keyed zero id path t l c e = ground (arith, e)
  climb-Chain keyed (suc fuel) id path t l c e = elim (Option-cases (lookup id cache)) [
    | inl p ↦
        let same = some_inj (sym (climb-none fuel id path p) ∙ e) in
        (subst Chain same c, [], sym same)
    | inr (info, p) ↦
        let key = All-lookup (λ e. e.1.node_id ≡ e.0) id info cache keyed p in
        let c' = Chain-cons id info path key l c in
        elim (Bool-cases (is_top id info)) [
          | inl q ↦
              let same = some_inj (sym (climb_top fuel id path info p q) ∙ e) in
              (subst Chain same c', info ∷ [], sym same)
          | inr q ↦
              let (chain, front, f) =
                climb-Chain keyed fuel info.parent_node (info ∷ path) t refl c'
                  (sym (climb_up fuel id path info p q) ∙ e) in
              (chain, front ++ (info ∷ []), f ∙ sym (append_assoc front info path))
        ]
  ]

-- A path that the loop ends with leads down to the node.
get_node_hierarchy-Chain :
    (cache : Dict String NodeInfo)
    → All (λ e. e.1.node_id ≡ e.0) cache
    → (fuel : ℕ) (id : String) (info : NodeInfo) (path : List NodeInfo)
    → lookup id cache ≡ some info
    → get_node_hierarchy cache fuel id ≡ some path
    → Chain cache path × (front : List NodeInfo) × (path ≡ front ++ (info ∷ []))
unfolding get_node_hierarchy climb
get_node_hierarchy-Chain cache keyed zero id info path p e = ground (arith, e)
get_node_hierarchy-Chain cache keyed (suc fuel) id info path p e =
    elim (Bool-cases (is_top id info)) [
      | inl q ↦
          let same = some_inj (sym (climb_top cache fuel id [] info p q) ∙ e) in
          (subst (Chain cache) same tt, [], sym same)
      | inr q ↦
          climb-Chain cache keyed fuel info.parent_node (info ∷ []) path refl tt
            (sym (climb_up cache fuel id [] info p q) ∙ e)
    ]

-- Where the references of the server go from lower to higher ranks, the loop of `GetNodeHierarchy`
-- ends after a discovery, for every node and within its rank and one rounds.
pub get_node_hierarchy_ends :
    {W : Type 0} (sp : Space W) (rank : String → ℕ)
    → Answers sp (λ p c. rank p < rank c)
    → (cfg : SearchConfig) (ds : Discovery) (w : W) → IsSettled ds
    → sp.is_connected w ≡ true
    → (id : String)
    → (path : List NodeInfo) × (get_node_hierarchy
          (discover_nodes sp cfg ds w).1.node_cache
          (suc (rank id))
          id
        ≡ some path)
unfolding get_node_hierarchy
get_node_hierarchy_ends sp rank answers cfg ds w settled up id =
    let edge : String → String → Type 0 = λ p c. rank p < rank c in
    let cache = (discover_nodes sp cfg ds w).1.node_cache in
    climb_ends cache rank
      (λ k info p.
        elim (All-lookup (Found edge cfg (next_walk_gen ds)) k info cache
          (discover_nodes-Found sp edge answers cfg ds w settled up) p).link [
            | inl (root, h) ↦ inl root
            | inr h ↦ inr h
          ])
      (suc (rank id)) id [] (omega arith)

-- After a discovery, where the references of the server go from lower to higher ranks: the loop of
-- `GetNodeHierarchy` ends for every cached node, within its rank and one rounds, with a path from
-- the top down, where each entry is the parent of the next and the node itself is the last. (The
-- client is connected, and the entries before were of the last walk.)
pub discovered_hierarchy-Chain :
    {W : Type 0} (sp : Space W) (rank : String → ℕ)
    → Answers sp (λ p c. rank p < rank c)
    → (cfg : SearchConfig) (ds : Discovery) (w : W) → IsSettled ds
    → sp.is_connected w ≡ true
    → (id : String) (info : NodeInfo)
    → lookup id (discover_nodes sp cfg ds w).1.node_cache ≡ some info
    → let cache = (discover_nodes sp cfg ds w).1.node_cache in
      (path : List NodeInfo) × (front : List NodeInfo) × (get_node_hierarchy cache
          (suc (rank id))
          id
        ≡ some path)
      × Chain cache path
      × (path ≡ front ++ (info ∷ []))
discovered_hierarchy-Chain sp rank answers cfg ds w settled up id info found =
    let edge : String → String → Type 0 = λ p c. rank p < rank c in
    let cache = (discover_nodes sp cfg ds w).1.node_cache in
    let keyed =
      All-impl (Found edge cfg (next_walk_gen ds)) (λ e. e.1.node_id ≡ e.0) (λ e f. f.key) cache
        (discover_nodes-Found sp edge answers cfg ds w settled up) in
    let (path, ends) = get_node_hierarchy_ends sp rank answers cfg ds w settled up id in
    let (chain, front, last) =
      get_node_hierarchy-Chain cache keyed (suc (rank id)) id info path found ends in
    (path, front, ends, chain, last)
