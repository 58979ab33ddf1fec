-- ===== src/Command.antt =====
-- `main` of cmd/opcua-mcp.go and `Start` of internal/mcp/server.go: the order in which the parts of
-- the program are made, what fails hard, and what the server goes on without.
pub mod Order
use opcua_mcp.Prelude.{
  String, Bool, true, false, List, Option, none, some, ◌==◌, string_eq, if◌then◌else◌,
}
use opcua_mcp.Prelude.Int.{ℤ}
use opcua_mcp.Prelude.Result.{Result, ok, err}
use opcua_mcp.Session.{Error, wrap}
use opcua_mcp.Cache.{CacheConfig}
use opcua_mcp.Config.{OpcuaConfig, ValidationError, validate}
use opcua_mcp.Config.Settings.{FullConfig, SearchSettings, StoreConfig}
use opcua_mcp.Config.Load.{Viper, load}
use opcua_mcp.Logging.{Logger, new_logger}
use opcua_mcp.Telemetry.Identity as Identity
use opcua_mcp.ToolPolicy as ToolPolicy
use opcua_mcp.ToolPolicy.{ToolPolicy}
use opcua_mcp.Handlers.Tools.{setup_tools}
use opcua_mcp.Shutdown.{Transport, stdio, http, transport_of, Handles}

-- What `main` calls, on a world `W` of files and of the network.
pub record Parts (W : Type 0) : Type 0 where
  pub viper : Viper
  pub to_lower : String → String
  pub equal_fold : String → String → Bool
  pub open_log : String → Option Error
  -- the variable SERVER_LOG_OUTPUT
  pub log_output : Option String
  pub open_store : String → ℤ → W → Option Error × W
  -- `Connect` of the new client
  pub connect : OpcuaConfig → W → Option Error × W
  -- `Start` of the new subscription manager
  pub start_manager : StoreConfig → W → Option Error × W
  -- bleve.Open and bleve.New, on the path of the search index
  pub open_index : String → W → Option Error × W
  pub create_index : String → W → Option Error × W
  pub telemetry : Identity.Host W
  pub sort : List String → List String
  pub start_discovery : W → W
  pub start_telemetry : W → W

-- `telemetryCfg` as `main` completes it.
pub record TelemetryConfig : Type 0 where
  pub loaded : Identity.Loaded
  pub transport : String
  pub auth_mode : String
  pub security_policy : String
  pub server_version : String

-- The parts of the server before it starts: whether the store, the manager and the search
-- index are there (not nil), and the configuration of the caching client.
pub record Ready : Type 0 where
  pub config : FullConfig
  pub has_store : Bool
  pub has_manager : Bool
  pub has_index : Bool
  pub cache : CacheConfig
  pub telemetry : TelemetryConfig

-- How `main` ends before the server is started.
pub data Ending : Type 0 where
  -- the panics for the configuration and for the logger
  not_loaded not_logging : Error → Ending
  invalid : ValidationError → Ending
  -- NewServer's error
  no_server : Error → Ending

pub data StartError : Type 0 where
  tools_failed : ToolPolicy.Error → StartError
  unsupported : Error → StartError

abbrev pub is_none : Option Error → Bool
is_none none = true
is_none (some e) = false

module _ {W : Type 0} (p : Parts W) where
  abbrev pub dial : FullConfig → W → W
  dial cfg w = if cfg.base.server.transport == "stdio" then w else (p.connect cfg.base.opcua w).1

  abbrev pub running : Option Error × W → Bool × W
  running (e, w) = (is_none e, w)

  abbrev pub managed : FullConfig → Bool → W → Bool × W
  managed cfg false w = (false, w)
  managed cfg true w = running (p.start_manager cfg.store w)

  -- The cache is off where there is no store.
  abbrev pub cache_config : FullConfig → Bool → CacheConfig
  cache_config cfg has_store = record {
    enable_cache = if has_store then cfg.search.enable_cache else false;
    type_info_ttl = cfg.store.typeinfo_ttl;
    browse_ttl = cfg.store.browse_ttl;
  }

  abbrev pub telemetry_of : FullConfig → Identity.Loaded → TelemetryConfig
  telemetry_of cfg loaded = record {
    loaded = loaded;
    transport = cfg.base.server.transport;
    auth_mode = cfg.base.opcua.auth_mode;
    security_policy = cfg.base.opcua.security_policy;
    server_version = cfg.mcp.version;
  }

  abbrev pub ready : FullConfig → Bool → Bool → Bool → Identity.Loaded × W → Result Ending Ready × W
  ready cfg has_store has_manager has_index (loaded, w) = (
    ok (record {
      config = cfg;
      has_store = has_store;
      has_manager = has_manager;
      has_index = has_index;
      cache = cache_config cfg has_store;
      telemetry = telemetry_of cfg loaded;
    }),
    w,
  )

  abbrev pub created : Option Error × W → Result Error Bool × W
  created (none, w) = (ok true, w)
  created (some e, w) = (err (wrap "failed to create search index" e), w)

  -- An index that cannot be opened is made anew.
  abbrev pub opened_or_new : String → Option Error × W → Result Error Bool × W
  opened_or_new path (none, w) = (ok true, w)
  opened_or_new path (some e, w) = created (p.create_index path w)

  -- `NewDiscoveryService`: whether it has an index.
  unfoldable pub new_discovery_service : SearchSettings → W → Result Error Bool × W
  new_discovery_service cfg w =
      if cfg.enable_search
      then opened_or_new cfg.search_index_path (p.open_index cfg.search_index_path w)
      else (ok false, w)

  abbrev pub served : FullConfig → Bool → Bool → Result Error Bool × W → Result Ending Ready × W
  served cfg has_store has_manager (err e, w) =
      (err (no_server (wrap "failed to create discovery service" e)), w)
  served cfg has_store has_manager (ok has_index, w) =
      ready cfg has_store has_manager has_index (Identity.load_config p.telemetry w)

  -- The steps once the store was opened, or could not be.
  abbrev pub assemble : FullConfig → Option Error × W → Result Ending Ready × W
  assemble cfg (e, w) =
      let m = managed cfg (is_none e) (dial cfg w) in
      served cfg (is_none e) m.0 (new_discovery_service cfg.search m.1)

  abbrev pub validated : FullConfig → Option ValidationError → W → Result Ending Ready × W
  validated cfg (some e) w = (err (invalid e), w)
  validated cfg none w = assemble cfg (p.open_store cfg.store.db_path cfg.store.open_timeout w)

  abbrev pub logging : FullConfig → Result Error Logger → W → Result Ending Ready × W
  logging cfg (err e) w = (err (not_logging e), w)
  logging cfg (ok log) w = validated cfg (validate cfg.base) w

  abbrev pub with_config : Result Error FullConfig → W → Result Ending Ready × W
  with_config (err e) w = (err (not_loaded e), w)
  with_config (ok cfg) w =
      logging cfg (new_logger p.to_lower p.equal_fold p.open_log p.log_output cfg.base.server) w

  -- `main`, up to the server's start.
  unfoldable pub prepare : W → Result Ending Ready × W
  prepare w = with_config (load p.viper) w

  abbrev pub transport_or_error : Result Error Transport → Result StartError Transport
  transport_or_error (ok t) = ok t
  transport_or_error (err e) = err (unsupported e)

  abbrev pub started :
      Ready → Result ToolPolicy.Error ToolPolicy → W → Result StartError Transport × W
  started r (err e) w = (err (tools_failed e), w)
  started r (ok policy) w = (
    transport_or_error (transport_of r.config.base.server.transport),
    p.start_telemetry (p.start_discovery w),
  )

  -- `Start`, up to the transport, which it then serves.
  unfoldable pub start : Ready → W → Result StartError Transport × W
  start r w = started r (setup_tools p.sort r.config.mcp.read_only r.config.mcp.allowed_tools) w

abbrev is_http : Transport → Bool
is_http stdio = false
is_http http = true

-- The fields that the shutdown of the started server finds.
abbrev pub handles_of : Ready → Transport → Handles
handles_of r t = record {
  subscription_manager = r.has_manager;
  http_server = is_http t;
  store = r.has_store;
  telemetry_cancel = true;
}
