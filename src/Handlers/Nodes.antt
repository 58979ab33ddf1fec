-- ===== src/Handlers/Nodes.antt =====
-- The handlers of internal/mcp/server.go that browse the server or use the discovery service, and
-- `handleListSubscriptions`.
use opcua_mcp.Prelude.{String, Bool, not, List, Option, none, some, length, if◌then◌else◌}
use opcua_mcp.Prelude.Int.{ℤ, pos, negsuc, lez}
use opcua_mcp.Prelude.Text.{is_empty}
use opcua_mcp.Prelude.Result.{Result, ok, err}
use opcua_mcp.Session.{Error}
use opcua_mcp.Store.Types.{BrowseReference}
use opcua_mcp.Cache
use opcua_mcp.Subscription.{Manager, SubscriptionRecord, list_subscriptions}
use opcua_mcp.Discovery.{NodeInfo, Reference, SearchConfig, Discovery, Space}
use opcua_mcp.Discovery.Walk.{force_discovery_refresh, ensure_server_nodes_indexed}
use opcua_mcp.Discovery.Debug.{CacheStats, get_cache_stats, DebugInfo, first_of}
use opcua_mcp.Handlers.BrowseNodes.{Forest, bare, grow, browse_nodes_with_depth}
use opcua_mcp.Handlers.Answer.{
  Json, flag, number, text, time_json, number_map, list, object, Items, no_items, and_item, items,
  nil_or_list, Fields, no_fields, field, Refusal, required, refused, failed, cache_failed, panicked,
  OpcuaClient, marshal_response,
}

abbrev pub node_fields : String → String → String → String → String → Fields → Fields
node_fields id browse_name display_name node_class type_definition rest =
    field "node_id" (text id) (
      field "browse_name" (text browse_name) (
        field "display_name" (text display_name) (
          field "node_class" (text node_class)
            (field "type_definition" (text type_definition) rest))))

abbrev pub reference_json : Reference → Json
reference_json r =
    object
      (node_fields r.node_id r.browse_name r.display_name r.node_class r.type_definition no_fields)

abbrev pub similar_json : NodeInfo → Json
similar_json n = object (
    node_fields n.node_id n.browse_name n.display_name n.node_class n.type_definition
      (field "parent_node" (text n.parent_node) (field "depth" (number (pos n.depth)) no_fields)))

-- The children of a node, where there are any.
abbrev pub children_field : Forest → Items → Fields
children_field bare children = no_fields
children_field (grow r d below rest) children = field "children" (list children) no_fields

unfoldable pub forest_items : Forest → Items
forest_items bare = no_items
forest_items (grow r depth below rest) =
    and_item
      (object (
        node_fields r.node_id r.browse_name r.display_name r.node_class r.type_definition
          (field "depth" (number (pos depth)) (children_field below (forest_items below)))))
      (forest_items rest)

abbrev pub stats_json : CacheStats → Json
stats_json s = object (
    field "total_nodes" (number (pos s.total_nodes)) (
      field "cache_enabled" (flag s.cache_enabled) (
        field "search_enabled" (flag s.search_enabled) (
          field "discovery_enabled" (flag s.discovery_enabled) (
            field "max_discovery_depth" (number s.max_discovery_depth) (
              field "max_nodes_per_browse" (number s.max_nodes_per_browse)
                (field "depth_distribution" (number_map s.depth_distribution) no_fields)))))))

abbrev pub subscription_json : SubscriptionRecord → Json
subscription_json r = object (
    field "subscription_id" (text r.id) (
      field "node_ids" (list (items text r.node_ids)) (
        field "interval_ms" (number r.interval_ms)
          (field "created_at" (time_json r.created_at) no_fields))))

-- `similarNodes[:maxResults]` if there are more; `none` is the panic of a negative bound.
abbrev pub limited : ℤ → List NodeInfo → Option (List NodeInfo)
unfolding first_of
limited (pos n) nodes = some (first_of n nodes)
limited (negsuc n) nodes = none

unfoldable pub limit_results : ℤ → List NodeInfo → Option (List NodeInfo)
unfolding first_of
limit_results max nodes = if lez (pos (length nodes)) max then some nodes else limited max nodes

module _ (marshal_indent : Json → Result Error String) where
  abbrev pub browse_answer :
      {W : Type 0} → Result Error (List Reference) × W → Result Refusal String × W
  browse_answer (err e, w) = (err (failed "Failed to browse OPC-UA server" e), w)
  browse_answer (ok refs, w) =
      (marshal_response marshal_indent (nil_or_list (items reference_json refs)), w)

  unfoldable pub handle_browse :
      {W : Type 0} → OpcuaClient W → String → W → Result Refusal String × W
  handle_browse cl node_id w = browse_answer (cl.browse node_id w)

  unfoldable pub forest_answer :
      {W : Type 0} → Result Cache.Error Forest × W → Result Refusal String × W
  unfolding forest_items
  forest_answer (err e, w) = (err (cache_failed "Failed to browse OPC-UA server" e), w)
  forest_answer (ok f, w) = (marshal_response marshal_indent (nil_or_list (forest_items f)), w)

  -- `browse` is the cached browse.
  unfoldable pub handle_browse_nodes :
      {W : Type 0}
      → (String → W → Result Cache.Error (List BrowseReference) × W)
      → String
      → ℤ
      → W
      → Result Refusal String × W
  unfolding browse_nodes_with_depth forest_answer
  handle_browse_nodes browse node_id max_depth w =
      forest_answer (browse_nodes_with_depth browse node_id max_depth w)

  abbrev pub similar_answer : Option (List NodeInfo) → Result Refusal String
  similar_answer none = err panicked
  similar_answer (some nodes) =
      marshal_response marshal_indent (nil_or_list (items similar_json nodes))

  -- `find` is FindSimilarNodes, which has no error.
  unfoldable pub handle_find_similar_nodes :
      (String → List NodeInfo) → String → ℤ → Result Refusal String
  unfolding limit_results
  handle_find_similar_nodes find browse_name max_results =
      if is_empty browse_name
      then err (required "browse_name")
      else similar_answer (limit_results max_results (find browse_name))

  -- `debug` is DebugSearchNodes, `debug_json` its map.
  unfoldable pub handle_debug_search :
      (DebugInfo → Json) → (String → DebugInfo) → String → Result Refusal String
  handle_debug_search debug_json debug browse_name =
      if is_empty browse_name
      then err (required "browse_name")
      else marshal_response marshal_indent (debug_json (debug browse_name))

  unfoldable pub handle_discovery_stats : SearchConfig → Discovery → Result Refusal String
  unfolding get_cache_stats
  handle_discovery_stats cfg ds =
      marshal_response marshal_indent (stats_json (get_cache_stats cfg ds.node_cache))

  unfoldable pub refreshed :
      {W : Type 0}
      → String
      → String
      → SearchConfig
      → Option Error × Discovery × W
      → Result Refusal String × Discovery × W
  unfolding get_cache_stats
  refreshed prefix message cfg (some e, ds, w) = (err (failed prefix e), ds, w)
  refreshed prefix message cfg (none, ds, w) = (
    marshal_response marshal_indent (
        object (
          field "message" (text message)
            (field "stats" (stats_json (get_cache_stats cfg ds.node_cache)) no_fields))),
    ds,
    w,
  )

  unfoldable pub handle_force_discovery :
      {W : Type 0} → Space W → SearchConfig → Discovery → W → Result Refusal String × Discovery × W
  unfolding force_discovery_refresh refreshed
  handle_force_discovery sp cfg ds w =
      refreshed "Failed to force discovery refresh" "Discovery refresh completed successfully" cfg
        (force_discovery_refresh sp cfg ds w)

  unfoldable pub handle_ensure_server_nodes :
      {W : Type 0} → Space W → SearchConfig → Discovery → W → Result Refusal String × Discovery × W
  unfolding ensure_server_nodes_indexed refreshed
  handle_ensure_server_nodes sp cfg ds w =
      refreshed "Failed to ensure Server nodes are indexed"
        "Server nodes indexing verified successfully" cfg (ensure_server_nodes_indexed sp cfg ds w)

  -- `available` is whether there is a subscription manager.
  unfoldable pub handle_list_subscriptions : Bool → Manager → Result Refusal String
  unfolding list_subscriptions
  handle_list_subscriptions available m =
      if not available
      then err
          (refused "Subscriptions are unavailable: the persistent store failed to open at startup")
      else marshal_response marshal_indent (list (items subscription_json (list_subscriptions m)))
