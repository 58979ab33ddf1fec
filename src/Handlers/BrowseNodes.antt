-- ===== src/Handlers/BrowseNodes.antt =====
-- `browseNodesWithDepth` of internal/mcp/server.go: the tree below a node.
use opcua_mcp.Prelude.{ℕ, zero, suc, String, true, false, List, [], ◌∷◌, ◌≡◌, refl, subst}
use opcua_mcp.Prelude.Int.{ℤ, pos_part}
use opcua_mcp.Prelude.Result.{Result, ok, err}
use opcua_mcp.Store.Types.{BrowseReference}

-- The nodes of one level, each with its depth and its children.
pub data Forest : Type 0 where
  bare : Forest
  grow : BrowseReference → ℕ → Forest → Forest → Forest

-- The children of a node, none where they could not be browsed.
abbrev pub or_bare : {E : Type 0} → Result E Forest → Forest
or_bare (ok f) = f
or_bare (err e) = bare

-- `browse` is the cached browse.
module _ {W E : Type 0} (browse : String → W → Result E (List BrowseReference) × W) where
  -- The loop over the references of a node at `depth`; `below` browses a child.
  unfoldable pub grow_all :
      (String → W → Result E Forest × W) → ℕ → List BrowseReference → W → Forest × W
  grow_all below depth [] w = (bare, w)
  grow_all below depth (r ∷ rs) w =
      let child = below r.node_id w in
      let rest = grow_all below depth rs child.1 in (grow r depth (or_bare child.0) rest.0, rest.1)

  abbrev pub grown :
      (String → W → Result E Forest × W)
      → ℕ
      → Result E (List BrowseReference) × W
      → Result E Forest × W
  unfolding grow_all
  grown below depth (err e, w) = (err e, w)
  grown below depth (ok refs, w) = let f = grow_all below depth refs w in (ok f.0, f.1)

  -- `left` is maxDepth - currentDepth: at 0 nothing is browsed, so that the check for the last level
  -- changes nothing but the call.
  unfoldable pub browse_levels : ℕ → ℕ → String → W → Result E Forest × W
  unfolding grow_all
  browse_levels zero depth node w = (ok bare, w)
  browse_levels (suc left) depth node w =
      grown (λ id v. browse_levels left (suc depth) id v) depth (browse node w)

  unfoldable pub browse_nodes_with_depth : String → ℤ → W → Result E Forest × W
  unfolding browse_levels
  browse_nodes_with_depth node max_depth w = browse_levels (pos_part max_depth) 0 node w

  -- The nodes have their depth, and are on at most so many levels.
  abbrev pub Levels : ℕ → ℕ → Forest → Type 0
  Levels left depth bare = Unit
  Levels zero depth (grow r d children rest) = true ≡ false
  Levels (suc left) depth (grow r d children rest) =
      (d ≡ depth) × Levels left (suc depth) children × Levels (suc left) depth rest

  Levels-bare : (left depth : ℕ) → Levels left depth bare
  Levels-bare zero depth = tt
  Levels-bare (suc left) depth = tt

  grow_all-Levels :
      (left depth : ℕ) (below : String → W → Result E Forest × W)
      → ((id : String) (w : W) → Levels left (suc depth) (or_bare (below id w).0))
      → (rs : List BrowseReference) (w : W) → Levels (suc left) depth (grow_all below depth rs w).0
  unfolding grow_all
  grow_all-Levels left depth below h [] w = tt
  grow_all-Levels left depth below h (r ∷ rs) w =
      let child = below r.node_id w in
      (refl, h r.node_id w, grow_all-Levels left depth below h rs child.1)

  grown-Levels :
      (left depth : ℕ) (below : String → W → Result E Forest × W)
      → ((id : String) (w : W) → Levels left (suc depth) (or_bare (below id w).0))
      → (x : Result E (List BrowseReference) × W)
      → Levels (suc left) depth (or_bare (grown below depth x).0)
  unfolding grow_all
  grown-Levels left depth below h (err e, w) = tt
  grown-Levels left depth below h (ok refs, w) = grow_all-Levels left depth below h refs w

  browse_levels-Levels :
      (left depth : ℕ) (node : String) (w : W)
      → Levels left depth (or_bare (browse_levels left depth node w).0)
  unfolding browse_levels
  browse_levels-Levels zero depth node w = tt
  browse_levels-Levels (suc left) depth node w =
      grown-Levels left depth (λ id v. browse_levels left (suc depth) id v)
        (λ id v. browse_levels-Levels left (suc depth) id v) (browse node w)

  -- The tree below a node has its nodes on at most `max_depth` levels, each with its level as its
  -- depth, also where the address space has cycles; for a limit of 0 or less it is empty.
  pub browse_nodes_with_depth-Levels :
      (node : String) (max_depth : ℤ) (w : W) (f : Forest)
      → (browse_nodes_with_depth node max_depth w).0 ≡ ok f
      → Levels (pos_part max_depth) 0 f
  unfolding browse_nodes_with_depth
  browse_nodes_with_depth-Levels node max_depth w f e =
      subst (λ x. Levels (pos_part max_depth) 0 (or_bare x)) e
        (browse_levels-Levels (pos_part max_depth) 0 node w)
