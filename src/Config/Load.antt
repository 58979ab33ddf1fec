-- ===== src/Config/Load.antt =====
-- `Load`, `readConfigFile` and `setDefaults` of internal/config/config.go. viper is a parameter: it
-- reads a file, and gives the value of a key from the environment, the file and the defaults.
use Prim.Native.Char.{code}
use Prim.Native.String as Text
use Prim.Native.String.{◌++◌ as append}
use opcua_mcp.Prelude.{
  ℕ, String, Bool, false, [], Option, none, some, nat_beq, string_eq, if◌then◌else◌,
}
use opcua_mcp.Prelude.Int.{ℤ, pos}
use opcua_mcp.Prelude.Dict.{Dict}
use opcua_mcp.Prelude.Result.{Result, ok, err, ◌>>=◌}
use opcua_mcp.Session.{Error, message, wrap}
use opcua_mcp.Config.{ServerConfig, OpcuaConfig}
use opcua_mcp.Config.Settings.{
  McpConfig, SearchSettings, StoreConfig, FullConfig, Setting, text, flag, number, decimal,
  defaults,
}

-- `strings.NewReplacer(".", "_")`, on a key.
unfoldable pub replace_dots : String → String
replace_dots Text.[] = Text.[]
replace_dots (Text.◌∷◌ c s) =
    let rest = replace_dots s in if nat_beq (code c) 46 then append "_" rest else Text.◌∷◌ c rest

-- What viper's ReadInConfig returns, for a path or for ./config.*.
pub data FileResult : Type 0 where
  contents : Dict String Setting → FileResult
  not_found : FileResult
  unreadable : Error → FileResult

-- viper, with the environment: `value file defaults key` after AutomaticEnv.
pub record Viper : Type 0 where
  pub config_file : Option String  -- the variable CONFIG_FILE, if it is set and not empty
  pub read_in_config : Option String → FileResult
  pub env : String → Option String  -- the variables that are set and not empty
  pub value : Dict String Setting → Dict String Setting → String → Option Setting

-- The field of a struct with the tag of a key: the zero value if the key is unset, an error if its
-- value is of another kind.
abbrev pub text_of : Option Setting → Result Error String
text_of (some (text s)) = ok s
text_of none = ok ""
text_of other = err (message "expected a string")

abbrev pub flag_of : Option Setting → Result Error Bool
flag_of (some (flag b)) = ok b
flag_of none = ok false
flag_of other = err (message "expected a bool")

abbrev pub number_of : Option Setting → Result Error ℤ
number_of (some (number z)) = ok z
number_of none = ok (pos 0)
number_of other = err (message "expected a number")

abbrev pub decimal_of : Option Setting → Result Error ℕ
decimal_of (some (decimal b)) = ok b
decimal_of none = ok 0
decimal_of other = err (message "expected a float")

module _ (get : String → Option Setting) where
  abbrev pub server_of : Result Error ServerConfig
  server_of = do
    http_port ← text_of (get "server.http_port")
    transport ← text_of (get "server.transport")
    log_level ← text_of (get "server.log_level")
    log_format ← text_of (get "server.log_format")
    log_output ← text_of (get "server.log_output")
    log_file ← text_of (get "server.log_file")
    log_add_source ← flag_of (get "server.log_add_source")
    ok (record {
      http_port = http_port;
      transport = transport;
      log_level = log_level;
      log_format = log_format;
      log_output = log_output;
      log_file = log_file;
      log_add_source = log_add_source;
    })

  abbrev pub opcua_of : Result Error OpcuaConfig
  opcua_of = do
    endpoint ← text_of (get "opcua.endpoint")
    auth_mode ← text_of (get "opcua.auth_mode")
    username ← text_of (get "opcua.username")
    password ← text_of (get "opcua.password")
    cert_file ← text_of (get "opcua.cert_file")
    key_file ← text_of (get "opcua.key_file")
    server_cert ← text_of (get "opcua.server_cert")
    security_policy ← text_of (get "opcua.security_policy")
    security_mode ← text_of (get "opcua.security_mode")
    request_timeout ← number_of (get "opcua.request_timeout")
    session_timeout ← number_of (get "opcua.session_timeout")
    max_retries ← number_of (get "opcua.max_retries")
    retry_delay ← number_of (get "opcua.retry_delay")
    ok (record {
      endpoint = endpoint;
      auth_mode = auth_mode;
      username = username;
      password = password;
      cert_file = cert_file;
      key_file = key_file;
      server_cert = server_cert;
      security_policy = security_policy;
      security_mode = security_mode;
      request_timeout = request_timeout;
      session_timeout = session_timeout;
      max_retries = max_retries;
      retry_delay = retry_delay;
    })

  abbrev pub mcp_of : Result Error McpConfig
  mcp_of = do
    name ← text_of (get "mcp.name")
    version ← text_of (get "mcp.version")
    enable_tools ← flag_of (get "mcp.enable_tools")
    enable_resources ← flag_of (get "mcp.enable_resources")
    enable_prompts ← flag_of (get "mcp.enable_prompts")
    http_path ← text_of (get "mcp.http_path")
    read_only ← flag_of (get "mcp.read_only")
    allowed_tools ← text_of (get "mcp.allowed_tools")
    ok (record {
      name = name;
      version = version;
      enable_tools = enable_tools;
      enable_resources = enable_resources;
      enable_prompts = enable_prompts;
      http_path = http_path;
      read_only = read_only;
      allowed_tools = allowed_tools;
    })

  abbrev pub search_of : Result Error SearchSettings
  search_of = do
    enable_discovery ← flag_of (get "search.enable_discovery")
    discovery_interval ← number_of (get "search.discovery_interval")
    discovery_root_node ← text_of (get "search.discovery_root_node")
    max_discovery_depth ← number_of (get "search.max_discovery_depth")
    max_nodes_per_browse ← number_of (get "search.max_nodes_per_browse")
    enable_search ← flag_of (get "search.enable_search")
    search_index_path ← text_of (get "search.search_index_path")
    search_max_results ← number_of (get "search.search_max_results")
    search_min_score ← decimal_of (get "search.search_min_score")
    enable_cache ← flag_of (get "search.enable_cache")
    ok (record {
      enable_discovery = enable_discovery;
      discovery_interval = discovery_interval;
      discovery_root_node = discovery_root_node;
      max_discovery_depth = max_discovery_depth;
      max_nodes_per_browse = max_nodes_per_browse;
      enable_search = enable_search;
      search_index_path = search_index_path;
      search_max_results = search_max_results;
      search_min_score = search_min_score;
      enable_cache = enable_cache;
    })

  abbrev pub store_of : Result Error StoreConfig
  store_of = do
    db_path ← text_of (get "store.db_path")
    open_timeout ← number_of (get "store.open_timeout")
    typeinfo_ttl ← number_of (get "store.typeinfo_ttl")
    browse_ttl ← number_of (get "store.browse_ttl")
    batch_window ← number_of (get "store.batch_window")
    batch_max_items ← number_of (get "store.batch_max_items")
    notify_chan_buffer ← number_of (get "store.notify_chan_buffer")
    ok (record {
      db_path = db_path;
      open_timeout = open_timeout;
      typeinfo_ttl = typeinfo_ttl;
      browse_ttl = browse_ttl;
      batch_window = batch_window;
      batch_max_items = batch_max_items;
      notify_chan_buffer = notify_chan_buffer;
    })

  -- viper's Unmarshal into a `Config`.
  unfoldable pub unmarshal : Result Error FullConfig
  unmarshal = do
    server ← server_of
    opcua ← opcua_of
    mcp ← mcp_of
    search ← search_of
    store ← store_of
    ok (record {
      base = record { server = server; opcua = opcua };
      mcp = mcp;
      search = search;
      store = store;
    })

-- What `readConfigFile` has read: a file that must be there, or one that may be missing.
abbrev pub required_file : FileResult → Result Error (Dict String Setting)
required_file (contents d) = ok d
required_file not_found = err (wrap "reading config file" (message "not found"))
required_file (unreadable e) = err (wrap "reading config file" e)

abbrev pub optional_file : FileResult → Result Error (Dict String Setting)
optional_file (contents d) = ok d
optional_file not_found = ok []
optional_file (unreadable e) = err (wrap "reading config file" e)

module _ (v : Viper) where
  unfoldable pub read_config_file : Result Error (Dict String Setting)
  read_config_file = elim v.config_file [
    | some path ↦ required_file (v.read_in_config (some path))
    | none ↦ optional_file (v.read_in_config none)
  ]

  abbrev pub parsed : Result Error FullConfig → Result Error FullConfig
  parsed (ok cfg) = ok cfg
  parsed (err e) = err (wrap "parsing configuration" e)

  abbrev pub load_from : Result Error (Dict String Setting) → Result Error FullConfig
  load_from (err e) = err e
  load_from (ok file) = parsed (unmarshal (v.value file defaults))

  unfoldable pub load : Result Error FullConfig
  unfolding read_config_file unmarshal
  load = load_from read_config_file
