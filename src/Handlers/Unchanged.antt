-- ===== src/Handlers/Unchanged.antt =====
-- The tools of internal/mcp/server.go that only read leave alone what their calls leave alone.
use opcua_mcp.Prelude.{
  ℕ, String, Bool, true, false, List, [], ◌∷◌, Option, none, some, ◌≡◌, refl, ap, ◌∙◌, arith,
}
use opcua_mcp.Prelude.Int.{ℤ, pos}
use opcua_mcp.Prelude.Text.{is_empty}
use opcua_mcp.Prelude.Result.{Result, ok, err}
use opcua_mcp.Session.{Error, ConnectOutcome}
use opcua_mcp.Requests.NodeIds.{ParseError, parse_node_ids}
use opcua_mcp.Requests.ServerInfo.{ServerStatus, first_status, get_server_info}
use opcua_mcp.Cache
use opcua_mcp.Cache.{ReadResult, read}
use opcua_mcp.Cache.Metadata.{browse}
use opcua_mcp.Cache.Quiet.{QuietReads, read-quiet, browse-quiet}
use opcua_mcp.Discovery.{Discovery, Reference}
use opcua_mcp.Discovery.Quiet.{
  QuietSpace, force_discovery_refresh-quiet, ensure_server_nodes_indexed-quiet,
}
use opcua_mcp.Discovery.Walk.{force_discovery_refresh, ensure_server_nodes_indexed}
use opcua_mcp.Prelude.{string_eq}
use opcua_mcp.Handlers.Answer.{Reading, Args, get_string, get_int}
use opcua_mcp.Handlers.BrowseNodes.{Forest, browse_nodes_with_depth}
use opcua_mcp.Handlers.Connection.{
  connect_answer, fallback_answer, handle_server_info_fallback, info_or_fallback, server_info,
  handle_connect, handle_server_info, server_status_node,
}
use opcua_mcp.Handlers.Nodes.{
  browse_answer, forest_answer, refreshed, handle_browse, handle_browse_nodes,
  handle_force_discovery, handle_ensure_server_nodes,
}
use opcua_mcp.Handlers.Read.{answer_of, read_parsed, handle_read}
use opcua_mcp.Handlers.Tools.{
  Parts, State, Handler, handle, find_by_name, on_read, on_write, on_browse, on_node_info,
  on_server_info, on_connect, on_disconnect, on_get_value, on_browse_nodes, on_get_value_by_name,
  on_find_similar_nodes, on_debug_search, on_discovery_stats, on_force_discovery,
  on_ensure_server_nodes, on_subscribe, on_unsubscribe, on_list_subscriptions,
}
use opcua_mcp.Handlers.Quiet.{
  QuietClient, unless_quiet, handle_get_value-quiet, handle_get_value_by_name-quiet,
  handle_node_info-quiet, browse_nodes_with_depth-quiet,
}

-- The handlers that may change the server, and the others.
abbrev pub changes : Handler → Bool
changes on_write = true
changes on_disconnect = true
changes on_subscribe = true
changes on_unsubscribe = true
changes on_read = false
changes on_browse = false
changes on_node_info = false
changes on_server_info = false
changes on_connect = false
changes on_get_value = false
changes on_browse_nodes = false
changes on_get_value_by_name = false
changes on_find_similar_nodes = false
changes on_debug_search = false
changes on_discovery_stats = false
changes on_force_discovery = false
changes on_ensure_server_nodes = false
changes on_list_subscriptions = false

-- What the tools that read call leaves `n` alone.
pub record QuietParts {W : Type 0} (p : Parts W) (n : W → ℕ) : Type 0 where
  pub client : QuietClient p.client n
  pub backend : QuietReads p.backend n
  pub space : QuietSpace p.space n

module _ {W : Type 0} (p : Parts W) (n : W → ℕ) (q : QuietParts p n) where
  answer_of-world :
      (x : Result Cache.Error (List ReadResult) × W) → (answer_of p.marshal_read x).1 ≡ x.1
  answer_of-world (err e, w) = refl
  answer_of-world (ok rs, w) = refl

  read_parsed-quiet :
      (r : Result ParseError (List String)) (age : ℤ) (w : W)
      → n
          (read_parsed p.marshal_read p.backend p.cache_config p.json_strings p.hub.is_node_id r age
            w).1
        ≡ n w
  read_parsed-quiet (err e) age w = refl
  read_parsed-quiet (ok ids) age w =
      ap n (answer_of-world (read p.backend p.cache_config ids age w))
      ∙ read-quiet p.backend p.cache_config n q.backend ids age w

  browse_answer-world :
      (x : Result Error (List Reference) × W) → (browse_answer p.marshal_indent x).1 ≡ x.1
  browse_answer-world (err e, w) = refl
  browse_answer-world (ok refs, w) = refl

  forest_answer-world :
      (x : Result Cache.Error Forest × W) → (forest_answer p.marshal_indent x).1 ≡ x.1
  unfolding forest_answer
  forest_answer-world (err e, w) = refl
  forest_answer-world (ok f, w) = refl

  refreshed-world :
      (prefix message : String) (x : Option Error × Discovery × W)
      → (refreshed p.marshal_indent prefix message p.search_config x).2 ≡ x.2
  unfolding refreshed
  refreshed-world prefix message (none, ds, w) = refl
  refreshed-world prefix message (some e, ds, w) = refl

  connect_answer-world : (x : Result Error ConnectOutcome × W) → (connect_answer x).1 ≡ x.1
  connect_answer-world (err e, w) = refl
  connect_answer-world (ok outcome, w) = refl

  fallback_answer-world :
      (e : Error) (x : Result Error (List Reading) × W)
      → (fallback_answer p.client p.marshal_indent p.widen p.state_name p.dynamic e x).1 ≡ x.1
  unfolding fallback_answer
  fallback_answer-world e (err e', w) = refl
  fallback_answer-world e (ok [], w) = refl
  fallback_answer-world e (ok (r ∷ rs), w) = ground arith

  info_or_fallback-quiet :
      (x : Result Error ServerStatus × W)
      → n (info_or_fallback p.client p.marshal_indent p.widen p.state_name p.dynamic x).1 ≡ n x.1
  unfolding handle_server_info_fallback info_or_fallback
  info_or_fallback-quiet (err e, w) =
      ap n (fallback_answer-world e (p.client.read (server_status_node ∷ []) w))
      ∙ q.client.read (server_status_node ∷ []) w
  info_or_fallback-quiet (ok s, w) = refl

  first_status-world :
      (x : Result Error (List Reading) × W)
      → (first_status p.client.is_connected p.client.read (λ r. r.status) p.dynamic x).1 ≡ x.1
  unfolding first_status
  first_status-world (err e, w) = refl
  first_status-world (ok [], w) = refl
  first_status-world (ok (r ∷ rs), w) = ground arith

  server_info-quiet :
      (w : W) → n (server_info p.client p.marshal_indent p.widen p.state_name p.dynamic w).1 ≡ n w
  unfolding get_server_info server_info
  server_info-quiet w = ground (
    arith,
    ap n (first_status-world (p.client.read ("i=2256" ∷ []) w)),
    q.client.read ("i=2256" ∷ []) w,
  )

  pub handle-quiet :
      (h : Handler) (a : Args) (s : State W)
      → changes h ≡ false
      → n (handle p h a s).1.world ≡ n s.world
  unfolding handle handle_read handle_browse handle_browse_nodes handle_connect handle_server_info
      handle_force_discovery handle_ensure_server_nodes
  handle-quiet on_write a s h = ground (arith, h)
  handle-quiet on_disconnect a s h = ground (arith, h)
  handle-quiet on_subscribe a s h = ground (arith, h)
  handle-quiet on_unsubscribe a s h = ground (arith, h)
  handle-quiet on_find_similar_nodes a s h = refl
  handle-quiet on_debug_search a s h = refl
  handle-quiet on_discovery_stats a s h = refl
  handle-quiet on_list_subscriptions a s h = refl
  handle-quiet on_read a s h =
      let ids = get_string a "node_ids" "" in
      unless_quiet n (is_empty ids) _ s.world _
        (read_parsed-quiet (parse_node_ids p.json_strings p.hub.is_node_id ids) _ s.world)
  handle-quiet on_browse a s h =
      let node = get_string a "node_id" "i=85" in
      ap n (browse_answer-world (p.client.browse node s.world)) ∙ q.client.browse node s.world
  handle-quiet on_node_info a s h =
      handle_node_info-quiet p.client p.marshal_indent p.widen n q.client p.class_name
        (get_string a "node_id" "") s.world
  handle-quiet on_server_info a s h =
      info_or_fallback-quiet
        (server_info p.client p.marshal_indent p.widen p.state_name p.dynamic s.world)
      ∙ server_info-quiet s.world
  handle-quiet on_connect a s h =
      ap n (connect_answer-world (p.client.ensure_connected s.world))
      ∙ q.client.ensure_connected s.world
  handle-quiet on_get_value a s h =
      handle_get_value-quiet p.client p.marshal_indent p.widen n q.client
        (get_string a "node_id" "") s.world
  handle-quiet on_browse_nodes a s h =
      let refs = browse p.backend p.cache_config in
      let node = get_string a "node_id" "i=85" in
      let depth = get_int a "max_depth" (pos 3) in
      ap n (forest_answer-world (browse_nodes_with_depth refs node depth s.world))
      ∙ browse_nodes_with_depth-quiet n refs (browse-quiet p.backend p.cache_config n q.backend)
          node depth s.world
  handle-quiet on_get_value_by_name a s h =
      handle_get_value_by_name-quiet p.client p.marshal_indent p.widen n q.client (find_by_name p s)
        (get_string a "browse_name" "") s.world
  handle-quiet on_force_discovery a s h =
      ap n
        (refreshed-world _ _ (force_discovery_refresh p.space p.search_config s.discovery s.world))
      ∙ force_discovery_refresh-quiet p.space n q.space p.search_config s.discovery s.world
  handle-quiet on_ensure_server_nodes a s h =
      ap n (
        refreshed-world _ _
          (ensure_server_nodes_indexed p.space p.search_config s.discovery s.world))
      ∙ ensure_server_nodes_indexed-quiet p.space n q.space p.search_config s.discovery s.world
