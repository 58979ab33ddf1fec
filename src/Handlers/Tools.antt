-- ===== src/Handlers/Tools.antt =====
-- The tools that `SetupTools` of internal/mcp/server.go registers, each with its handler, and a call
-- of a tool: by its name, behind the tool policy. The MCP server runs the handler that is
-- registered under the name; what the descriptions of the tools say is left out.
use opcua_mcp.Prelude.{ℕ, String, Bool, List, [], ◌∷◌, Option, none, some, string_eq, map}
use opcua_mcp.Prelude.Int.{ℤ, pos}
use opcua_mcp.Prelude.Dict.{Dict, lookup}
use opcua_mcp.Prelude.Result.{Result}
use opcua_mcp.Session.{Error}
use opcua_mcp.Value.{Value}
use opcua_mcp.Requests.ServerInfo.{Dynamic}
use opcua_mcp.Cache.{Backend, CacheConfig}
use opcua_mcp.Cache.Metadata.{browse}
use opcua_mcp.Subscription.{Hub, Manager}
use opcua_mcp.Discovery.{NodeInfo, SearchConfig, Discovery, Space}
use opcua_mcp.Discovery.Index.{SearchRequest, Hit, get_node_by_browse_name, find_similar_nodes}
use opcua_mcp.Discovery.Debug.{DebugInfo, debug_search_nodes}
use opcua_mcp.ToolPolicy.{
  ToolPolicy, Error as PolicyError, new_tool_policy, CallResult, tool_policy_middleware,
}
use opcua_mcp.Handlers.Answer.{Args, Json, Refusal, Reading, OpcuaClient, get_string, get_int}
use opcua_mcp.Handlers.Read.{Marshal, ReadRefusal, handle_read}
use opcua_mcp.Handlers.Unsubscribe as Subscriptions
use opcua_mcp.Handlers.Values.{handle_get_value, handle_get_value_by_name, handle_node_info}
use opcua_mcp.Handlers.Connection.{handle_connect, handle_disconnect, handle_server_info}
use opcua_mcp.Handlers.Write.{Written, handle_write}
use opcua_mcp.Handlers.Nodes.{
  handle_browse, handle_browse_nodes, handle_find_similar_nodes, handle_debug_search,
  handle_discovery_stats, handle_force_discovery, handle_ensure_server_nodes,
  handle_list_subscriptions,
}

-- The method that a tool is registered with.
pub data Handler : Type 0 where
  on_read on_write on_browse on_node_info on_server_info on_connect on_disconnect : Handler
  on_get_value on_browse_nodes on_get_value_by_name on_find_similar_nodes : Handler
  on_debug_search on_discovery_stats on_force_discovery on_ensure_server_nodes : Handler
  on_subscribe on_unsubscribe on_list_subscriptions : Handler

-- The calls of `addTool`, in their order.
abbrev pub registered : Dict String Handler
registered =
    ("opcua_read", on_read)
    ∷ ("opcua_write", on_write)
    ∷ ("opcua_browse", on_browse)
    ∷ ("opcua_node_info", on_node_info)
    ∷ ("opcua_server_info", on_server_info)
    ∷ ("opcua_connect", on_connect)
    ∷ ("opcua_disconnect", on_disconnect)
    ∷ ("opcua_get_value", on_get_value)
    ∷ ("opcua_browse_nodes", on_browse_nodes)
    ∷ ("opcua_get_value_by_name", on_get_value_by_name)
    ∷ ("opcua_find_similar_nodes", on_find_similar_nodes)
    ∷ ("opcua_debug_search", on_debug_search)
    ∷ ("opcua_discovery_stats", on_discovery_stats)
    ∷ ("opcua_force_discovery", on_force_discovery)
    ∷ ("opcua_ensure_server_nodes", on_ensure_server_nodes)
    ∷ ("opcua_subscribe", on_subscribe)
    ∷ ("opcua_unsubscribe", on_unsubscribe)
    ∷ ("opcua_list_subscriptions", on_list_subscriptions)
    ∷ []

-- `s.toolNames`
abbrev pub tool_names : List String
tool_names = map (λ t. t.0) registered

-- The policy that `SetupTools` builds at its end.
unfoldable pub setup_tools :
    (List String → List String) → Bool → String → Result PolicyError ToolPolicy
unfolding new_tool_policy
setup_tools sort read_only allowed_tools = new_tool_policy sort read_only allowed_tools tool_names

-- What the handlers use: the components, and the code outside.
pub record Parts (W : Type 0) : Type 0 where
  pub client : OpcuaClient W
  pub backend : Backend W
  pub cache_config : CacheConfig
  pub space : Space W
  pub search_config : SearchConfig
  pub hub : Hub W
  pub has_manager : Bool
  -- bleve, on the index as it is: the hits of a request, their number and total, the documents
  pub search : SearchRequest → W → Result Error (List Hit)
  pub search_counts : SearchRequest → W → Result Error (ℕ × ℕ)
  pub doc_count : W → Result Error ℕ
  pub reaches_min_score : ℕ → Bool
  -- strings, JSON, and the names of gopcua's constants
  pub to_lower : String → String
  pub bytes : String → List ℕ
  pub json_strings : String → Option (List String)
  pub json_value : String → Result Error Value
  pub marshal_indent : Json → Result Error String
  pub marshal_read : Marshal
  pub debug_json : DebugInfo → Json
  pub widen : ℕ → ℕ
  pub class_name : ℕ → String
  pub state_name : ℕ → String
  pub dynamic : Reading → Dynamic
  -- the identifier and the time of a new subscription
  pub new_id : W → String
  pub now : W → ℤ

-- What the server keeps: the discovery service, the subscription manager, and the world.
pub record State (W : Type 0) : Type 0 where
  pub discovery : Discovery
  pub manager : Manager
  pub world : W

-- The answer of a call, before those of the subscriptions and of a write are put into words.
pub data ToolAnswer : Type 0 where
  answered : Result Refusal String → ToolAnswer
  read_answered : Result ReadRefusal String → ToolAnswer
  write_answered : Result Refusal Written → ToolAnswer
  subscribe_answered : Result Subscriptions.Refusal Subscriptions.SubscribeAnswer → ToolAnswer
  unsubscribe_answered : Result Subscriptions.Refusal (List String) → ToolAnswer
  unknown_tool : String → ToolAnswer

module _ {W : Type 0} where
  abbrev pub in_world : {A : Type 0} → (A → ToolAnswer) → State W → A × W → ToolAnswer × State W
  in_world wrap_ s (a, w) = (wrap_ a, record s { world = w })

  abbrev pub in_discovery : State W → Result Refusal String × Discovery × W → ToolAnswer × State W
  in_discovery s (a, ds, w) = (answered a, record s { discovery = ds; world = w })

  abbrev pub in_manager :
      {A : Type 0}
      → (Result Subscriptions.Refusal A → ToolAnswer)
      → State W
      → Subscriptions.Handled W A
      → ToolAnswer × State W
  in_manager wrap_ s h = (wrap_ h.answer, record s { manager = h.manager; world = h.world })

module _ {W : Type 0} (p : Parts W) where
  abbrev pub find_by_name : State W → String → Result Error NodeInfo
  unfolding get_node_by_browse_name
  find_by_name s name =
      get_node_by_browse_name p.to_lower p.bytes p.reaches_min_score (λ r. p.search r s.world)
        p.search_config s.discovery.has_index s.discovery.node_cache name

  abbrev pub find_similar : State W → String → List NodeInfo
  unfolding find_similar_nodes
  find_similar s name =
      find_similar_nodes p.to_lower p.bytes p.reaches_min_score (λ r. p.search r s.world)
        p.search_config s.discovery.has_index s.discovery.node_cache name

  abbrev pub debug_info : State W → String → DebugInfo
  unfolding debug_search_nodes
  debug_info s name =
      debug_search_nodes p.to_lower (λ r. p.search_counts r s.world) (p.doc_count s.world)
        p.search_config s.discovery name

  -- The method on the arguments of a call, with their defaults.
  unfoldable pub handle : Handler → Args → State W → ToolAnswer × State W
  unfolding get_string get_int handle_read handle_write handle_browse handle_node_info
      handle_server_info handle_connect handle_disconnect handle_get_value handle_browse_nodes
      handle_get_value_by_name handle_find_similar_nodes handle_debug_search handle_discovery_stats
      handle_force_discovery handle_ensure_server_nodes handle_list_subscriptions
      Subscriptions.handle_subscribe Subscriptions.handle_unsubscribe browse get_node_by_browse_name
      find_similar_nodes debug_search_nodes
  handle on_read a s = in_world read_answered s (
      handle_read p.marshal_read p.backend p.cache_config p.json_strings p.hub.is_node_id
        (get_string a "node_ids" "") (get_int a "max_age_ms" (pos 0)) s.world)
  handle on_write a s = in_world write_answered s (
      handle_write p.backend p.cache_config p.json_value (get_string a "node_id" "")
        (get_string a "value" "") s.world)
  handle on_browse a s =
      in_world answered s
        (handle_browse p.marshal_indent p.client (get_string a "node_id" "i=85") s.world)
  handle on_node_info a s = in_world answered s (
      handle_node_info p.client p.marshal_indent p.widen p.class_name (get_string a "node_id" "")
        s.world)
  handle on_server_info a s =
      in_world answered s
        (handle_server_info p.client p.marshal_indent p.widen p.state_name p.dynamic s.world)
  handle on_connect a s =
      in_world answered s
        (handle_connect p.client p.marshal_indent p.widen p.state_name p.dynamic s.world)
  handle on_disconnect a s =
      in_world answered s
        (handle_disconnect p.client p.marshal_indent p.widen p.state_name p.dynamic s.world)
  handle on_get_value a s =
      in_world answered s
        (handle_get_value p.client p.marshal_indent p.widen (get_string a "node_id" "") s.world)
  handle on_browse_nodes a s = in_world answered s (
      handle_browse_nodes p.marshal_indent (browse p.backend p.cache_config)
        (get_string a "node_id" "i=85") (get_int a "max_depth" (pos 3)) s.world)
  handle on_get_value_by_name a s = in_world answered s (
      handle_get_value_by_name p.client p.marshal_indent p.widen (find_by_name s)
        (get_string a "browse_name" "") s.world)
  handle on_find_similar_nodes a s = (
    answered (
        handle_find_similar_nodes p.marshal_indent (find_similar s) (get_string a "browse_name" "")
          (get_int a "max_results" (pos 10))),
    s,
  )
  handle on_debug_search a s = (
    answered (
        handle_debug_search p.marshal_indent p.debug_json (debug_info s)
          (get_string a "browse_name" "")),
    s,
  )
  handle on_discovery_stats a s =
      (answered (handle_discovery_stats p.marshal_indent p.search_config s.discovery), s)
  handle on_force_discovery a s =
      in_discovery s
        (handle_force_discovery p.marshal_indent p.space p.search_config s.discovery s.world)
  handle on_ensure_server_nodes a s =
      in_discovery s
        (handle_ensure_server_nodes p.marshal_indent p.space p.search_config s.discovery s.world)
  handle on_subscribe a s = in_manager subscribe_answered s (
      Subscriptions.handle_subscribe p.hub p.json_strings p.has_manager (get_string a "node_ids" "")
        (get_int a "interval_ms" (pos 0)) (p.new_id s.world) (p.now s.world) s.manager s.world)
  handle on_unsubscribe a s = in_manager unsubscribe_answered s (
      Subscriptions.handle_unsubscribe p.hub p.json_strings p.has_manager
        (get_string a "subscription_id" "") (get_string a "node_ids" "") s.manager s.world)
  handle on_list_subscriptions a s =
      (answered (handle_list_subscriptions p.marshal_indent p.has_manager s.manager), s)

  -- The call of a tool by its name.
  unfoldable pub run_handler : String → Option Handler → Args → State W → ToolAnswer × State W
  unfolding handle
  run_handler name none a s = (unknown_tool name, s)
  run_handler name (some h) a s = handle h a s

  unfoldable pub call_tool :
      Option ToolPolicy → String → Args → State W → CallResult ToolAnswer × State W
  unfolding tool_policy_middleware run_handler lookup
  call_tool policy name a s =
      tool_policy_middleware policy (λ n t. run_handler n (lookup n registered) a t) name s

  -- A sequence of calls, each with its arguments.
  unfoldable pub call_tools : Option ToolPolicy → List (String × Args) → State W → State W
  unfolding call_tool
  call_tools policy [] s = s
  call_tools policy ((name, a) ∷ calls) s = call_tools policy calls (call_tool policy name a s).1
