-- ===== src/Config/Settings.antt =====
-- The configuration of internal/config/config.go and the defaults that `setDefaults` registers.
use opcua_mcp.Prelude.{ℕ, ◌*◌, String, Bool, true, false, [], ◌∷◌, ◌++◌}
use opcua_mcp.Prelude.Int.{ℤ, pos}
use opcua_mcp.Prelude.Dict.{Dict}
use opcua_mcp.Config.{Config}

pub record McpConfig : Type 0 where
  pub name : String
  pub version : String
  pub enable_tools : Bool
  pub enable_resources : Bool
  pub enable_prompts : Bool
  pub http_path : String
  pub read_only : Bool
  pub allowed_tools : String

pub record SearchSettings : Type 0 where
  pub enable_discovery : Bool
  pub discovery_interval : ℤ
  pub discovery_root_node : String
  pub max_discovery_depth : ℤ
  pub max_nodes_per_browse : ℤ
  pub enable_search : Bool
  pub search_index_path : String
  pub search_max_results : ℤ
  pub search_min_score : ℕ  -- the bits of a float64
  pub enable_cache : Bool

pub record StoreConfig : Type 0 where
  pub db_path : String
  pub open_timeout : ℤ
  pub typeinfo_ttl : ℤ
  pub browse_ttl : ℤ
  pub batch_window : ℤ
  pub batch_max_items : ℤ
  pub notify_chan_buffer : ℤ

pub record FullConfig : Type 0 where
  pub base : Config
  pub mcp : McpConfig
  pub search : SearchSettings
  pub store : StoreConfig

-- The value of a key, converted; a duration is a number of nanoseconds.
pub data Setting : Type 0 where
  text : String → Setting
  flag : Bool → Setting
  number : ℤ → Setting
  decimal : ℕ → Setting

abbrev pub seconds : ℕ → Setting
seconds n = number (pos (n * 1000000000))

abbrev pub millis : ℕ → Setting
millis n = number (pos (n * 1000000))

abbrev pub server_defaults : Dict String Setting
server_defaults =
    ("server.http_port", text "8080")
    ∷ ("server.transport", text "stdio")
    ∷ ("server.log_level", text "info")
    ∷ ("server.log_format", text "json")
    ∷ ("server.log_output", text "stdout")
    ∷ ("server.log_file", text "")
    ∷ ("server.log_add_source", flag false)
    ∷ []

abbrev pub opcua_defaults : Dict String Setting
opcua_defaults =
    ("opcua.endpoint", text "opc.tcp://localhost:4840")
    ∷ ("opcua.auth_mode", text "anonymous")
    ∷ ("opcua.username", text "")
    ∷ ("opcua.password", text "")
    ∷ ("opcua.cert_file", text "")
    ∷ ("opcua.key_file", text "")
    ∷ ("opcua.server_cert", text "")
    ∷ ("opcua.security_policy", text "None")
    ∷ ("opcua.security_mode", text "None")
    ∷ ("opcua.request_timeout", seconds 30)
    ∷ ("opcua.session_timeout", seconds 60)
    ∷ ("opcua.max_retries", number (pos 3))
    ∷ ("opcua.retry_delay", seconds 1)
    ∷ []

abbrev pub mcp_defaults : Dict String Setting
mcp_defaults =
    ("mcp.name", text "OPC-UA MCP Server")
    ∷ ("mcp.version", text "1.0.0")
    ∷ ("mcp.enable_tools", flag true)
    ∷ ("mcp.enable_resources", flag true)
    ∷ ("mcp.enable_prompts", flag false)
    ∷ ("mcp.http_path", text "/mcp")
    ∷ ("mcp.read_only", flag false)
    ∷ ("mcp.allowed_tools", text "")
    ∷ []

abbrev pub search_defaults : Dict String Setting
search_defaults =
    ("search.enable_discovery", flag true)
    ∷ ("search.discovery_interval", seconds 30)
    ∷ ("search.discovery_root_node", text "i=85")
    ∷ ("search.max_discovery_depth", number (pos 10))
    ∷ ("search.max_nodes_per_browse", number (pos 10000))
    ∷ ("search.enable_search", flag true)
    ∷ ("search.search_index_path", text "./search_index")
    ∷ ("search.search_max_results", number (pos 100))
    ∷ ("search.search_min_score", decimal 0x3FB999999999999A)
    ∷ ("search.enable_cache", flag true)
    ∷ []

abbrev pub store_defaults : Dict String Setting
store_defaults =
    ("store.db_path", text "mcp_opcua_store.db")
    ∷ ("store.open_timeout", seconds 5)
    ∷ ("store.typeinfo_ttl", seconds 86400)
    ∷ ("store.browse_ttl", seconds 300)
    ∷ ("store.batch_window", millis 25)
    ∷ ("store.batch_max_items", number (pos 250))
    ∷ ("store.notify_chan_buffer", number (pos 1024))
    ∷ []

abbrev pub defaults : Dict String Setting
defaults =
    server_defaults ++ (opcua_defaults ++ (mcp_defaults ++ (search_defaults ++ store_defaults)))
