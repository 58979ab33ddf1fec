-- ===== src/Config/Loaded.antt =====
-- What `Load` of internal/config/config.go gives where nothing is set.
use mathlib.Core.Path.{fun_ext}
use opcua_mcp.Prelude.{
  String, true, false, [], Option, none, some, string_eq, ◌≡◌, refl, sym, ap, ◌∙◌, arith, inl, inr,
}
use opcua_mcp.Prelude.Int.{pos}
use opcua_mcp.Prelude.Dict.{Dict, lookup}
use opcua_mcp.Prelude.Result.{Result, ok, err, ok_inj, >>=-eq-ok, Result-cases}
use opcua_mcp.Session.{Error}
use opcua_mcp.Config.{validate, is_one_of}
use opcua_mcp.Config.Settings.{McpConfig, flag, FullConfig, Setting, defaults}
use opcua_mcp.Config.Load.{
  server_of, opcua_of, mcp_of, search_of, store_of, text_of, flag_of, Viper, not_found,
  replace_dots, unmarshal, read_config_file, load, parsed,
}

-- What the documentation of viper says of AutomaticEnv, a file and SetDefault: the environment
-- wins, then the file, then the default. `convert` is the conversion of a variable's text.
pub record ViperLaws (v : Viper) (to_upper : String → String) (convert : String → String → Setting)
    : Type 0 where
  pub from_env :
      (file ds : Dict String Setting) (key s : String)
      → v.env (to_upper (replace_dots key)) ≡ some s
      → v.value file ds key ≡ some (convert key s)
  pub from_file :
      (file ds : Dict String Setting) (key : String) (x : Setting)
      → v.env (to_upper (replace_dots key)) ≡ none
      → lookup key file ≡ some x
      → v.value file ds key ≡ some x
  pub from_default :
      (file ds : Dict String Setting) (key : String)
      → v.env (to_upper (replace_dots key)) ≡ none
      → lookup key file ≡ none
      → v.value file ds key ≡ lookup key ds

-- The configuration out of the box.
abbrev pub built_in : FullConfig
built_in = record {
  base = record {
    server = record {
      http_port = "8080";
      transport = "stdio";
      log_level = "info";
      log_format = "json";
      log_output = "stdout";
      log_file = "";
      log_add_source = false;
    };
    opcua = record {
      endpoint = "opc.tcp://localhost:4840";
      auth_mode = "anonymous";
      username = "";
      password = "";
      cert_file = "";
      key_file = "";
      server_cert = "";
      security_policy = "None";
      security_mode = "None";
      request_timeout = pos 30000000000;
      session_timeout = pos 60000000000;
      max_retries = pos 3;
      retry_delay = pos 1000000000;
    };
  };
  mcp = record {
    name = "OPC-UA MCP Server";
    version = "1.0.0";
    enable_tools = true;
    enable_resources = true;
    enable_prompts = false;
    http_path = "/mcp";
    read_only = false;
    allowed_tools = "";
  };
  search = record {
    enable_discovery = true;
    discovery_interval = pos 30000000000;
    discovery_root_node = "i=85";
    max_discovery_depth = pos 10;
    max_nodes_per_browse = pos 10000;
    enable_search = true;
    search_index_path = "./search_index";
    search_max_results = pos 100;
    search_min_score = 0x3FB999999999999A;
    enable_cache = true;
  };
  store = record {
    db_path = "mcp_opcua_store.db";
    open_timeout = pos 5000000000;
    typeinfo_ttl = pos 86400000000000;
    browse_ttl = pos 300000000000;
    batch_window = pos 25000000;
    batch_max_items = pos 250;
    notify_chan_buffer = pos 1024;
  };
}

unmarshal_defaults : unmarshal (λ key. lookup key defaults) ≡ ok built_in
unfolding unmarshal lookup
unmarshal_defaults = refl

-- With no configuration file and no variable set, `Load` gives the built-in configuration, every
-- key of it, and `Validate` accepts it: the server starts out of the box. (The hypotheses: viper
-- follows its documented order of precedence.)
load-validate :
    (v : Viper) (to_upper : String → String) (convert : String → String → Setting)
    → ViperLaws v to_upper convert
    → v.config_file ≡ none
    → v.read_in_config none ≡ not_found
    → ((name : String) → v.env name ≡ none)
    → (load v ≡ ok built_in) × (validate built_in.base ≡ none)
unfolding load read_config_file validate is_one_of lookup
load-validate v to_upper convert laws no_path no_file unset =
    let found : (key : String) → v.value [] defaults key ≡ lookup key defaults =
      λ key. laws.from_default [] defaults key (unset (to_upper (replace_dots key))) refl in
    (
      rw (load, read_config_file, no_path, no_file)
          (ap (λ get. parsed v (unmarshal get)) (fun_ext found) ∙ ap (parsed v) unmarshal_defaults),
      refl,
    )

unmarshal_mcp :
    (get : String → Option Setting) (cfg : FullConfig)
    → unmarshal get ≡ ok cfg
    → mcp_of get ≡ ok cfg.mcp
unfolding unmarshal
unmarshal_mcp get cfg h =
    let (server, _, h1) = >>=-eq-ok (server_of get) _ h in
    let (opcua, _, h2) = >>=-eq-ok (opcua_of get) _ h1 in
    let (mcp, found, h3) = >>=-eq-ok (mcp_of get) _ h2 in
    let (search, _, h4) = >>=-eq-ok (search_of get) _ h3 in
    let (store, _, h5) = >>=-eq-ok (store_of get) _ h4 in found ∙ ap (λ c. ok c.mcp) (ok_inj h5)

mcp_read_only :
    (get : String → Option Setting) (mcp : McpConfig)
    → mcp_of get ≡ ok mcp
    → flag_of (get "mcp.read_only") ≡ ok mcp.read_only
mcp_read_only get mcp h =
    let (a, _, h1) = >>=-eq-ok (text_of (get "mcp.name")) _ h in
    let (b, _, h2) = >>=-eq-ok (text_of (get "mcp.version")) _ h1 in
    let (c, _, h3) = >>=-eq-ok (flag_of (get "mcp.enable_tools")) _ h2 in
    let (d, _, h4) = >>=-eq-ok (flag_of (get "mcp.enable_resources")) _ h3 in
    let (e, _, h5) = >>=-eq-ok (flag_of (get "mcp.enable_prompts")) _ h4 in
    let (f, _, h6) = >>=-eq-ok (text_of (get "mcp.http_path")) _ h5 in
    let (g, found, h7) = >>=-eq-ok (flag_of (get "mcp.read_only")) _ h6 in
    let (k, _, h8) = >>=-eq-ok (text_of (get "mcp.allowed_tools")) _ h7 in
    found ∙ ap (λ m. ok m.read_only) (ok_inj h8)

parsed-ok :
    (v : Viper) (r : Result Error FullConfig) (cfg : FullConfig) → parsed v r ≡ ok cfg → r ≡ ok cfg
parsed-ok v (ok c) cfg h = h
parsed-ok v (err e) cfg h = ground (arith, h)

-- A variable that viper converts to true makes the loaded configuration read-only, whatever the
-- configuration file says. (The hypotheses: viper follows its documented order of precedence, and
-- the loading succeeds.)
pub load_read_only :
    (v : Viper) (to_upper : String → String) (convert : String → String → Setting)
    → ViperLaws v to_upper convert
    → (s : String) → v.env (to_upper (replace_dots "mcp.read_only")) ≡ some s
    → convert "mcp.read_only" s ≡ flag true
    → (cfg : FullConfig) → load v ≡ ok cfg
    → cfg.mcp.read_only ≡ true
unfolding load
load_read_only v to_upper convert laws s set true_ cfg h =
    elim (Result-cases (read_config_file v)) [
      | inl (e, p) ↦ ground (arith, rw (load, p) at h)
      | inr (file, p) ↦
          let get = v.value file defaults in
          let whole = parsed-ok v (unmarshal get) cfg (rw (load, p) at h) in
          let read = mcp_read_only get cfg.mcp (unmarshal_mcp get cfg whole) in
          let forced : get "mcp.read_only" ≡ some (flag true) =
            laws.from_env file defaults "mcp.read_only" s set ∙ ap some true_ in
          sym (ok_inj (sym (ap flag_of forced) ∙ read))
    ]
