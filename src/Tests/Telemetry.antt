-- ===== src/Tests/Telemetry.antt =====
-- The theorems on what the telemetry sends, for a server with one tool, and on its configuration.
use opcua_mcp.Prelude.{ℕ, String, true, List, [], ◌∷◌, none, some, All, refl}
use opcua_mcp.Prelude.Int.{pos}
use opcua_mcp.Prelude.{false, ◌≡◌, if◌then◌else◌, inr}
use opcua_mcp.Prelude.Int.{negsuc, lez}
use opcua_mcp.Prelude.Text.{is_empty, trim_space}
use opcua_mcp.Prelude.Result.{ok}
use opcua_mcp.Telemetry.Identity.{Host, HostLaws, anon_id_path, load_config, load_config-again}
use opcua_mcp.Telemetry.Aggregator.{
  Telemetry, Snapshot, noop, live, new_telemetry, new_aggregator, snapshot, recorded, receive,
  record_tool_call, record_error,
}
use opcua_mcp.Telemetry.Payload.{Config, EventPayload, build_payload, flush}
use opcua_mcp.Telemetry.Middleware.{
  Answer, text_content, telemetry_middleware, events_of, record_all,
}
use opcua_mcp.Telemetry.Allowed.{Allowed, started, called, Reachable-Allowed}

abbrev tools : List String
tools = "opcua_read" ∷ []

abbrev config : Config
config = record {
  anon_id = "a";
  transport = "stdio";
  arch = "amd64";
  os = "linux";
  auth_mode = "anonymous";
  security_policy = "None";
  server_version = "1";
}

-- A handler that reports an error with a text of its own.
abbrev handler : ℕ → Answer × ℕ
handler w =
    ((some (record { is_error = true; content = text_content "secret not found" ∷ [] }), none), w)

abbrev after_call : Telemetry
after_call = (telemetry_middleware (λ s. s) handler "opcua_read" 1 0 (new_telemetry true)).2

abbrev snapshot_of : Telemetry → Snapshot
snapshot_of noop = (snapshot new_aggregator).0
snapshot_of (live a) = (snapshot a).0

abbrev sent : EventPayload
sent = build_payload (λ n. pos n) "now" config (snapshot_of after_call) 3

Reachable-Allowed_example : All (λ e. Allowed tools e.0) sent.props
unfolding flush new_telemetry new_aggregator telemetry_middleware events_of record_all recorded
    receive record_tool_call record_error
Reachable-Allowed_example =
    Reachable-Allowed ℕ tools (λ n. pos n) "now" config 3 sent
      (called (λ s. s) handler "opcua_read" 1 0 refl (started true)) refl

-- A host whose world is the content of the identifier's file, empty at the start.
abbrev host : Host String
host = record {
  to_lower = λ s. s;
  do_not_track = none;
  telemetry = none;
  flush_interval = "-5s";
  config_home = "/cfg";
  home_dir = ok "/root";
  join = λ parts. "/cfg/opcua-mcp/telemetry_id";
  dir = λ path. "/cfg/opcua-mcp";
  parse_duration = λ s. ok (negsuc 4999999999);
  parse_uuid = λ s. if is_empty s then none else some s;
  new_uuid = λ w. ("5f0c", w);
  read_file = λ path w. ok w;
  make_dir = λ path w. (none, w);
  write_file = λ path text w. (none, text);
}

host_laws : HostLaws host
unfolding trim_space
host_laws = record { read_written = λ path text w written. refl; parse_new = λ w. refl }

load_config-again_example :
    (lez (load_config host "").0.flush_interval (pos 0) ≡ false)
    × (load_config host (load_config host "").1 ≡ load_config host "")
unfolding anon_id_path
load_config-again_example =
    load_config-again host host_laws "/cfg/opcua-mcp/telemetry_id" refl "" (inr (refl, refl))
