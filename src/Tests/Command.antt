-- ===== src/Tests/Command.antt =====
-- The theorems on the start of the program and its end, in an environment that sets one variable, on
-- the program's store.
use opcua_mcp.Prelude.{true, false, none, some, ◌≡◌, refl, ◌==◌, string_eq}
use opcua_mcp.Prelude.Int.{pos}
use opcua_mcp.Prelude.Dict.{lookup}
use opcua_mcp.Prelude.Text.{split_comma, trim_space}
use opcua_mcp.Prelude.Result.{ok}
use opcua_mcp.Session.{message}
use opcua_mcp.Cache.Stored.{Stores}
use opcua_mcp.Config.{validate, is_one_of}
use opcua_mcp.Config.Load.{load, unmarshal, read_config_file, replace_dots}
use opcua_mcp.Logging.{new_logger, resolve_log_output, output_of}
use opcua_mcp.Telemetry.{resolve_enabled}
use opcua_mcp.Telemetry.Identity.{
  Host, load_config, resolve_anon_id, resolve_flush_interval, anon_id_path,
}
use opcua_mcp.ToolPolicy.{contains, new_tool_policy, unknown_of}
use opcua_mcp.Handlers.Tools.{setup_tools}
use opcua_mcp.Shutdown.{stdio, Steps, KeepValues, Pending}
use opcua_mcp.Command.{Parts, Ready, new_discovery_service, prepare, start, handles_of}
use opcua_mcp.Command.Order.{IsOutcome, IsLastStored, prepare-IsOutcome, start-last_entry}
use opcua_mcp.Tests.Config.{viper, read_only_set, read_only_config}
use opcua_mcp.Tests.Handlers.{World, stored, keeps, accepts, events}
use opcua_mcp.Tests.Store.{deps, empty}
use opcua_mcp.Tests.Stored.{server as cached}

abbrev world : World
world = (empty, 0)

-- A host without a directory for the identifier.
abbrev host : Host World
host = record {
  to_lower = λ s. s;
  do_not_track = some "1";
  telemetry = none;
  flush_interval = "";
  config_home = "/cfg";
  home_dir = ok "/root";
  join = λ parts. "/cfg";
  dir = λ path. "/";
  parse_duration = λ s. ok (pos 1);
  parse_uuid = λ s. some s;
  new_uuid = λ w. ("5f0c", w);
  read_file = λ path w. ok "5f0c";
  make_dir = λ path w. (none, w);
  write_file = λ path text w. (none, w);
}

abbrev parts : Parts World
parts = record {
  viper = viper read_only_set;
  to_lower = λ s. s;
  equal_fold = λ s t. s == t;
  open_log = λ name. none;
  log_output = none;
  open_store = λ path timeout w. (none, w);
  connect = λ cfg w. (none, w);
  start_manager = λ cfg w. (none, w);
  open_index = λ path w. (some (message "no index"), w);
  create_index = λ path w. (none, w);
  telemetry = host;
  sort = λ names. names;
  start_discovery = λ w. w;
  start_telemetry = λ w. w;
}

abbrev server : Ready
server = record {
  config = read_only_config;
  has_store = true;
  has_manager = true;
  has_index = true;
  cache = record {
    enable_cache = true;
    type_info_ttl = pos 86400000000000;
    browse_ttl = pos 300000000000;
  };
  telemetry = record {
    loaded = record { enabled = false; flush_interval = pos 600000000000; anon_id = "5f0c" };
    transport = "stdio";
    auth_mode = "anonymous";
    security_policy = "None";
    server_version = "1.0.0";
  };
}

prepared : prepare parts world ≡ (ok server, world)
unfolding prepare new_discovery_service load unmarshal read_config_file replace_dots lookup viper
    new_logger resolve_log_output output_of validate is_one_of load_config resolve_anon_id
    resolve_flush_interval anon_id_path resolve_enabled trim_space
prepared = refl

began : (start parts server world).0 ≡ ok stdio
unfolding start setup_tools new_tool_policy contains unknown_of split_comma trim_space
began = refl

-- The end of the store empties it; the other steps leave it.
abbrev steps : Steps World
steps = record {
  stop_discovery = λ w. w;
  clear_handler = λ w. w;
  stop_watcher = λ w. w;
  shutdown_http = λ w. w;
  disconnect = λ w. w;
  close_store = λ w. (empty, 0);
  cancel_telemetry = λ w. w;
  close_telemetry = λ w. w;
}

abbrev left : Pending
left = record { max_items = pos 100; events = events }

keep_values : KeepValues stored steps
keep_values = record {
  discovery = λ n w. refl;
  handler = λ n w. refl;
  watcher = λ n w. refl;
  connection = λ n w. refl;
}

prepare-IsOutcome_example : IsOutcome parts world (prepare parts world)
prepare-IsOutcome_example = prepare-IsOutcome parts world

start-last_entry_example :
    IsLastStored parts stored steps left (handles_of server stdio) "a" 1 world
start-last_entry_example =
    start-last_entry parts stored steps left (Stores deps cached) keeps keep_values world world
      server prepared stdio began refl refl "a" 1 world accepts
