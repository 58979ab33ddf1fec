-- ===== src/Handlers/Connection.antt =====
-- `handleConnect`, `handleDisconnect`, `handleServerInfo` with its fallback and
-- `handleServerResource` of internal/mcp/server.go.
use opcua_mcp.Prelude.{ℕ, String, List, [], ◌∷◌, Option, none, some, nat_beq, not, if◌then◌else◌}
use opcua_mcp.Prelude.Int.{ℤ}
use opcua_mcp.Prelude.Result.{Result, ok, err}
use opcua_mcp.Session.{Error, ConnectOutcome, already_healthy, reconnected, newly_connected}
use opcua_mcp.Normalize.{normalize_read_value}
use opcua_mcp.Requests.ServerInfo.{ServerStatus, BuildInfo, Dynamic, get_server_info}
use opcua_mcp.Handlers.Answer.{
  Json, zero_time, text, value_json, time_json, status_json, object, Fields, no_fields, field,
  Refusal, refused, failed, both_failed, Reading, OpcuaClient, marshal_response,
}

abbrev pub connect_text : ConnectOutcome → String
connect_text already_healthy = "Already connected to OPC-UA server (connection verified)"
connect_text reconnected = "Reconnected to OPC-UA server: the previous session was no longer usable"
connect_text newly_connected = "Successfully connected to OPC-UA server"

abbrev pub connect_answer :
    {W : Type 0} → Result Error ConnectOutcome × W → Result Refusal String × W
connect_answer (err e, w) = (err (failed "Failed to connect to OPC-UA server" e), w)
connect_answer (ok outcome, w) = (ok (connect_text outcome), w)

abbrev pub disconnect_answer : {W : Type 0} → Option Error × W → Result Refusal String × W
disconnect_answer (some e, w) = (err (failed "Failed to disconnect from OPC-UA server" e), w)
disconnect_answer (none, w) = (ok "Successfully disconnected from OPC-UA server", w)

abbrev pub time_or_zero : Option ℤ → Json
time_or_zero none = zero_time
time_or_zero (some t) = time_json t

abbrev pub build_fields : Option BuildInfo → Fields
build_fields none = no_fields
build_fields (some b) = field "product_uri" (text b.product_uri) (
    field "manufacturer" (text b.manufacturer_name) (
      field "product_name" (text b.product_name) (
        field "software_version" (text b.software_version) (
          field "build_number" (text b.build_number)
            (field "build_date" (time_or_zero b.build_date) no_fields)))))

-- `state_name` is the String() of a ServerState; `rest` are the fields that follow.
abbrev pub status_fields : (ℕ → String) → ServerStatus → Fields → Fields
status_fields state_name s rest = field "start_time" (time_or_zero s.start_time) (
    field "current_time" (time_or_zero s.current_time)
      (field "state" (text (state_name s.state)) rest))

abbrev pub format_server_status_response : (ℕ → String) → ServerStatus → String → Json
format_server_status_response state_name s method =
    object (status_fields state_name s (field "method" (text method) (build_fields s.build_info)))

abbrev pub server_status_node : String
server_status_node = "i=2256"

module _ {W : Type 0} (cl : OpcuaClient W) (marshal_indent : Json → Result Error String)
    (widen : ℕ → ℕ) (state_name : ℕ → String) (dynamic : Reading → Dynamic) where
  unfoldable pub handle_connect : W → Result Refusal String × W
  handle_connect w = connect_answer (cl.ensure_connected w)

  unfoldable pub handle_disconnect : W → Result Refusal String × W
  handle_disconnect w =
      if not (cl.is_connected w)
      then (ok "Not connected to OPC-UA server", w)
      else disconnect_answer (cl.disconnect w)

  unfoldable pub server_info : W → Result Error ServerStatus × W
  unfolding get_server_info
  server_info w = get_server_info cl.is_connected cl.read (λ r. r.status) dynamic w

  unfoldable pub fallback_answer :
      Error → Result Error (List Reading) × W → Result Refusal String × W
  unfolding normalize_read_value
  fallback_answer primary (err e, w) = (err (both_failed primary e), w)
  fallback_answer primary (ok [], w) =
      (err (refused "No server status data returned from fallback"), w)
  fallback_answer primary (ok (r ∷ rs), w) =
      if nat_beq r.status 0
      then (
        marshal_response marshal_indent (
            object (
              field "node_id" (text server_status_node) (
                field "server_status" (value_json (normalize_read_value widen r.value)) (
                  field "source_timestamp" (time_json r.source_timestamp) (
                    field "server_timestamp" (time_json r.server_timestamp) (
                      field "status" (status_json r.status)
                        (field "method" (text "fallback_read") no_fields))))))),
        w,
      )
      else (err (refused "Server status read failed"), w)

  unfoldable pub handle_server_info_fallback : Error → W → Result Refusal String × W
  unfolding fallback_answer
  handle_server_info_fallback primary w =
      fallback_answer primary (cl.read (server_status_node ∷ []) w)

  unfoldable pub info_or_fallback : Result Error ServerStatus × W → Result Refusal String × W
  unfolding handle_server_info_fallback
  info_or_fallback (err e, w) = handle_server_info_fallback e w
  info_or_fallback (ok s, w) = (
    marshal_response marshal_indent (format_server_status_response state_name s "get_server_info"),
    w,
  )

  unfoldable pub handle_server_info : W → Result Refusal String × W
  unfolding server_info info_or_fallback
  handle_server_info w = info_or_fallback (server_info w)

  abbrev pub resource_json : Result Error String → Result Refusal String
  resource_json (ok t) = ok t
  resource_json (err e) = err (failed "failed to marshal response" e)

  abbrev pub resource_of_status : Result Error ServerStatus × W → Result Refusal String × W
  resource_of_status (err e, w) = (err (failed "failed to get server info" e), w)
  resource_of_status (ok s, w) = (
    resource_json
        (marshal_indent (object (status_fields state_name s (build_fields s.build_info)))),
    w,
  )

  unfoldable pub handle_server_resource : W → Result Refusal String × W
  unfolding server_info
  handle_server_resource w = resource_of_status (server_info w)
