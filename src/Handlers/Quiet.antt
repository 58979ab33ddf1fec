-- ===== src/Handlers/Quiet.antt =====
-- The handlers of internal/mcp/server.go that only read: they leave alone what the reads, browses
-- and connects that they make leave alone.
use opcua_mcp.Prelude.{
  ℕ, suc, zero, String, Bool, true, false, List, [], ◌∷◌, ◌≡◌, refl, ap, ◌∙◌, arith, if◌then◌else◌,
}
use opcua_mcp.Prelude.Int.{ℤ, pos_part}
use opcua_mcp.Prelude.Text.{is_empty}
use opcua_mcp.Prelude.Result.{Result, ok, err}
use opcua_mcp.Session.{Error}
use opcua_mcp.Store.Types.{BrowseReference}
use opcua_mcp.Discovery.{NodeInfo}
use opcua_mcp.Handlers.Answer.{Json, Fields, Reading, OpcuaClient, field, text}
use opcua_mcp.Handlers.BrowseNodes.{Forest, grow_all, grown, browse_levels, browse_nodes_with_depth}
use opcua_mcp.Handlers.Values.{
  first_reading, value_of_found, info_of_class, handle_get_value, handle_get_value_by_name,
  handle_node_info, node_fields,
}

-- The calls on the client that read, browse or connect leave `n` alone.
pub record QuietClient {W : Type 0} (cl : OpcuaClient W) (n : W → ℕ) : Type 0 where
  pub read : (nodes : List String) (w : W) → n (cl.read nodes w).1 ≡ n w
  pub browse : (node : String) (w : W) → n (cl.browse node w).1 ≡ n w
  pub get_node_class : (node : String) (w : W) → n (cl.get_node_class node w).1 ≡ n w
  pub ensure_connected : (w : W) → n (cl.ensure_connected w).1 ≡ n w

pub unless_quiet :
    {W A : Type 0} (n : W → ℕ) (c : Bool) (a : A) (w : W) (x : A × W)
    → n x.1 ≡ n w
    → n (if c then (a, w) else x).1 ≡ n w
unless_quiet n true a w x p = refl
unless_quiet n false a w x p = p

module _ {W E : Type 0} (n : W → ℕ) (lookup_refs : String → W → Result E (List BrowseReference) × W)
    (quiet : (id : String) (w : W) → n (lookup_refs id w).1 ≡ n w) where
  grow_all-quiet :
      (below : String → W → Result E Forest × W)
      → ((id : String) (w : W) → n (below id w).1 ≡ n w)
      → (depth : ℕ) (refs : List BrowseReference) (w : W)
      → n (grow_all lookup_refs below depth refs w).1 ≡ n w
  unfolding grow_all
  grow_all-quiet below h depth [] w = refl
  grow_all-quiet below h depth (r ∷ rs) w =
      grow_all-quiet below h depth rs (below r.node_id w).1 ∙ h r.node_id w

  grown-quiet :
      (below : String → W → Result E Forest × W)
      → ((id : String) (w : W) → n (below id w).1 ≡ n w)
      → (depth : ℕ) (x : Result E (List BrowseReference) × W)
      → n (grown lookup_refs below depth x).1 ≡ n x.1
  unfolding grow_all
  grown-quiet below h depth (err e, w) = refl
  grown-quiet below h depth (ok refs, w) = grow_all-quiet below h depth refs w

  browse_levels-quiet :
      (left depth : ℕ) (node : String) (w : W)
      → n (browse_levels lookup_refs left depth node w).1 ≡ n w
  unfolding browse_levels
  browse_levels-quiet zero depth node w = refl
  browse_levels-quiet (suc left) depth node w =
      grown-quiet (λ id v. browse_levels lookup_refs left (suc depth) id v)
        (λ id v. browse_levels-quiet left (suc depth) id v) depth (lookup_refs node w)
      ∙ quiet node w

  pub browse_nodes_with_depth-quiet :
      (node : String) (max_depth : ℤ) (w : W)
      → n (browse_nodes_with_depth lookup_refs node max_depth w).1 ≡ n w
  unfolding browse_nodes_with_depth
  browse_nodes_with_depth-quiet node max_depth w = browse_levels-quiet (pos_part max_depth) 0 node w

module _ {W : Type 0} (cl : OpcuaClient W) (m : Json → Result Error String) (widen : ℕ → ℕ)
    (n : W → ℕ) (q : QuietClient cl n) where
  first_reading-world :
      (named : Fields → Fields) (x : Result Error (List Reading) × W)
      → (first_reading cl m widen named x).1 ≡ x.1
  first_reading-world named (err e, w) = refl
  first_reading-world named (ok [], w) = refl
  first_reading-world named (ok (r ∷ rs), w) = refl

  reading-quiet :
      (named : Fields → Fields) (node : String) (w : W)
      → n (first_reading cl m widen named (cl.read (node ∷ []) w)).1 ≡ n w
  reading-quiet named node w =
      ap n (first_reading-world named (cl.read (node ∷ []) w)) ∙ q.read (node ∷ []) w

  pub handle_get_value-quiet :
      (node : String) (w : W) → n (handle_get_value cl m widen node w).1 ≡ n w
  unfolding handle_get_value
  handle_get_value-quiet node w =
      unless_quiet n (is_empty node) _ w _
        (reading-quiet (λ fs. field "node_id" (text node) fs) node w)

  value_of_found-quiet :
      (r : Result Error NodeInfo) (w : W) → n (value_of_found cl m widen r w).1 ≡ n w
  value_of_found-quiet (err e) w = refl
  value_of_found-quiet (ok found) w = reading-quiet (node_fields cl m widen found) found.node_id w

  pub handle_get_value_by_name-quiet :
      (find : String → Result Error NodeInfo) (name : String) (w : W)
      → n (handle_get_value_by_name cl m widen find name w).1 ≡ n w
  unfolding handle_get_value_by_name
  handle_get_value_by_name-quiet find name w =
      unless_quiet n (is_empty name) _ w _ (value_of_found-quiet (find name) w)

  info_of_class-quiet :
      (class_name : ℕ → String) (node : String) (x : Result Error ℕ × W)
      → n (info_of_class cl m widen class_name node x).1 ≡ n x.1
  info_of_class-quiet class_name node (err e, w) = refl
  info_of_class-quiet class_name node (ok c, w) = ground (arith, q.read (node ∷ []) w)

  pub handle_node_info-quiet :
      (class_name : ℕ → String) (node : String) (w : W)
      → n (handle_node_info cl m widen class_name node w).1 ≡ n w
  unfolding handle_node_info
  handle_node_info-quiet class_name node w =
      unless_quiet n (is_empty node) _ w _
        (info_of_class-quiet class_name node (cl.get_node_class node w) ∙ q.get_node_class node w)
