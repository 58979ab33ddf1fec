-- ===== src/Tests/Server.antt =====
-- The theorems on the whole server, with a client and a server that count the writes and the
-- subscriptions.
use opcua_mcp.Prelude.{ℕ, suc, String, true, List, [], ◌∷◌, none, some, string_eq}
use opcua_mcp.Prelude.Int.{pos}
use opcua_mcp.Prelude.Result.{ok}
use opcua_mcp.Session.{Client}
use opcua_mcp.Value.{string}
use opcua_mcp.Normalize.{decoded_float64}
use opcua_mcp.Requests.{Server, raw_byte}
use opcua_mcp.Requests.ServerInfo.{of_other}
use opcua_mcp.Discovery.{Reference, Space}
use opcua_mcp.Cache.{Backend}
use opcua_mcp.Subscription.{Hub}
use opcua_mcp.ToolPolicy.{ToolPolicy}
use opcua_mcp.Handlers.Answer.{Args, Reading, null}
use opcua_mcp.Handlers.OverClient.{over_client}
use opcua_mcp.Handlers.Tools.{Parts, State}
use opcua_mcp.Tests.Session.{net, live}
use opcua_mcp.Tests.Cache.{seven, info, cfg}
use opcua_mcp.Tests.Discovery.{config}
use opcua_mcp.Tests.Handlers.{marshal, manager}

abbrev reading : Reading
reading = record {
  value = decoded_float64 0;
  status = 0;
  source_timestamp = pos 1;
  server_timestamp = pos 1;
}

abbrev child : Reference
child = record {
  node_id = "i=86";
  browse_name = "Pump";
  display_name = "Pump";
  node_class = "Object";
  type_definition = "i=58";
}

abbrev server : Server ℕ ℕ Reading Reference
server = record {
  parse_node_id = λ s. some 4;
  read = λ k ids w. (ok (reading ∷ []), w);
  read_attribute = λ k id a w. (ok (record { status = 0; value = raw_byte 3 } ∷ []), w);
  browse = λ k id w.
      (ok (record { status = 0; references = child ∷ []; continuation_point = [] } ∷ []), w);
  browse_next = λ k cp w. (ok [], w);
  context_error = λ w. none;
  grace_period = λ w. w;
  bad_decoding = reading;
}

-- A store that keeps nothing, and a client whose writes count.
abbrev backend : Backend (Client × ℕ)
backend = record {
  get_value = λ n w. (ok none, w);
  put_value = λ n e w. w;
  delete_value = λ n w. w;
  get_type_info = λ n w. (ok none, w);
  put_type_info = λ n e w. w;
  get_browse = λ n w. (ok none, w);
  put_browse = λ n e w. w;
  client_read = λ ns w. (ok (seven ∷ []), w);
  client_write = λ n v w. (none, (w.0, suc w.1));
  client_browse = λ n w. (ok [], w);
  client_node_type_info = λ n w. (ok info, w);
  record_cache_result = λ h w. w;
  now = λ w. pos 50;
}

abbrev space : Space (Client × ℕ)
space = record {
  is_connected = λ w. true;
  browse = λ node w. (ok [], w);
  now = λ w. pos 5;
  pause = λ t w. w;
  set_discovery_stats = λ n w. w;
  can_index = λ n. true;
  run_batch = λ ops w. (none, w);
}

abbrev hub : Hub (Client × ℕ)
hub = record {
  is_node_id = λ n. true;
  connect = λ w. (none, w);
  subscribe = λ i w. (ok 4, (w.0, suc w.1));
  monitor = λ sub rs w. (ok [], (w.0, suc w.1));
  unmonitor = λ sub is w. (w.0, suc w.1);
  cancel = λ sub w. (w.0, suc w.1);
  put_subscription = λ id i w. (none, w);
  delete_subscription = λ id w. (none, w);
  list_subscriptions = λ w. (ok [], w);
}

abbrev parts : Parts (Client × ℕ)
parts = record {
  client = over_client net server;
  backend = backend;
  cache_config = cfg;
  space = space;
  search_config = config;
  hub = hub;
  has_manager = true;
  search = λ r w. ok [];
  search_counts = λ r w. ok (0, 0);
  doc_count = λ w. ok 0;
  reaches_min_score = λ b. true;
  to_lower = λ s. s;
  bytes = λ s. [];
  json_strings = λ s. none;
  json_value = λ s. ok (string s);
  marshal_indent = λ j. ok "{}";
  marshal_read = marshal;
  debug_json = λ d. null;
  widen = λ b. b;
  class_name = λ c. "Object";
  state_name = λ s. "Running";
  dynamic = λ r. of_other;
  new_id = λ w. "s3";
  now = λ w. pos 6;
}

abbrev policy : ToolPolicy
policy = record { read_only = true; allowed = [] }

abbrev args : Args
args = record {
  texts = ("node_id", "i=2") ∷ ("value", "5") ∷ ("node_ids", "i=2") ∷ [];
  numbers = [];
}

abbrev calls : List (String × Args)
calls =
    ("opcua_read", args)
    ∷ ("opcua_write", args)
    ∷ ("opcua_connect", args)
    ∷ ("opcua_subscribe", args)
    ∷ []

abbrev state : State (Client × ℕ)
state = record {
  discovery = record { node_cache = []; walk_gen = 0; has_index = true };
  manager = manager;
  world = (live, 0);
}
