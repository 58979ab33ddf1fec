-- ===== src/Tests/Config.antt =====
-- The theorems on the configuration and the logger, in an environment that sets one variable.
use opcua_mcp.Prelude.{
  String, true, false, Option, none, some, ◌==◌, string_eq, if◌then◌else◌, ◌≡◌, ◌↔◌, refl,
}
use opcua_mcp.Prelude.Int.{pos}
use opcua_mcp.Prelude.Dict.{lookup}
use opcua_mcp.Prelude.Result.{ok}
use opcua_mcp.Config.{Config, ServerConfig, validate}
use opcua_mcp.Config.Settings.{FullConfig, Setting, text, flag}
use opcua_mcp.Config.Load.{Viper, not_found, replace_dots, load, unmarshal, read_config_file}
use opcua_mcp.Config.Loaded.{ViperLaws, built_in}
use opcua_mcp.Logging.{new_logger, WritesStdout, falls_to_stdout, new_logger-stdout}
use opcua_mcp.Config.Valid.{IsUsable, validate-IsUsable}

abbrev signed : Config
signed = record {
  server = record {
    http_port = "8080";
    transport = "stdio";
    log_level = "info";
    log_format = "text";
    log_output = "stderr";
    log_file = "";
    log_add_source = false;
  };
  opcua = record {
    endpoint = "opc.tcp://localhost:4840";
    auth_mode = "anonymous";
    username = "";
    password = "";
    cert_file = "";
    key_file = "";
    server_cert = "";
    security_policy = "Basic256Sha256";
    security_mode = "Sign";
    request_timeout = pos 10;
    session_timeout = pos 60;
    max_retries = pos 3;
    retry_delay = pos 5;
  };
}

validate-IsUsable_example : (validate signed ≡ none) ↔ IsUsable signed
validate-IsUsable_example = validate-IsUsable signed

abbrev pub to_upper : String → String
to_upper s = if s == "mcp_read_only" then "MCP_READ_ONLY" else s

abbrev pub convert : String → String → Setting
convert key s = if key == "mcp.read_only" then flag (s == "true") else text s

abbrev picked : String → Option String → Option Setting → Option Setting → Option Setting
picked key (some s) in_file default = some (convert key s)
picked key none (some x) default = some x
picked key none none default = default

-- viper in an environment, with no configuration file.
unfoldable pub viper : (String → Option String) → Viper
unfolding lookup replace_dots
viper env = record {
  config_file = none;
  read_in_config = λ path. not_found;
  env = env;
  value = λ file ds key.
      picked key (env (to_upper (replace_dots key))) (lookup key file) (lookup key ds);
}

pub viper_laws : (env : String → Option String) → ViperLaws (viper env) to_upper convert
unfolding viper
viper_laws env = record {
  from_env = λ file ds key s e. rw e refl;
  from_file = λ file ds key x e f. rw (e, f) refl;
  from_default = λ file ds key e f. rw (e, f) refl;
}

abbrev pub read_only_set : String → Option String
read_only_set name = if name == "MCP_READ_ONLY" then some "true" else none

abbrev pub read_only_config : FullConfig
read_only_config = record built_in { mcp = record built_in.mcp { read_only = true } }

pub loads_read_only : load (viper read_only_set) ≡ ok read_only_config
unfolding load unmarshal read_config_file lookup replace_dots viper
loads_read_only = refl

abbrev nameless : ServerConfig
nameless = record signed.server { log_output = "file" }

-- A file without a name, on the stdio transport: the logger writes to standard output.
new_logger-stdout_example :
    WritesStdout
      (λ s. s)
      (λ s t. s == t)
      (λ name. none)
      (new_logger (λ s. s) (λ s t. s == t) (λ name. none) none nameless)
    ↔ (((nameless.log_output == "stdout") ≡ false)
        × (falls_to_stdout (λ s. s) (λ s t. s == t) (λ name. none) nameless ≡ true))
new_logger-stdout_example =
    new_logger-stdout (λ s. s) (λ s t. s == t) (λ name. none) refl none nameless refl
