-- ===== src/Handlers/Values.antt =====
-- `handleGetValue`, `handleGetValueByName` and `handleNodeInfo` of internal/mcp/server.go.
use opcua_mcp.Prelude.{ℕ, String, List, [], ◌∷◌, nat_beq, if◌then◌else◌}
use opcua_mcp.Prelude.Text.{is_empty}
use opcua_mcp.Prelude.Result.{Result, ok, err}
use opcua_mcp.Session.{Error}
use opcua_mcp.Normalize.{normalize_read_value}
use opcua_mcp.Discovery.{NodeInfo}
use opcua_mcp.Handlers.Answer.{
  Json, null, text, value_json, time_json, status_json, object, Fields, no_fields, field, Refusal,
  required, refused, failed, Reading, OpcuaClient, marshal_response,
}

-- ua.NodeClassVariable
abbrev pub node_class_variable : ℕ
node_class_variable = 2

module _ {W : Type 0} (cl : OpcuaClient W) (marshal_indent : Json → Result Error String)
    (widen : ℕ → ℕ) where
  -- The fields of a reading.
  abbrev pub reading_fields : Reading → Fields
  unfolding normalize_read_value
  reading_fields r = field "value" (value_json (normalize_read_value widen r.value)) (
      field "status" (status_json r.status) (
        field "source_timestamp" (time_json r.source_timestamp)
          (field "server_timestamp" (time_json r.server_timestamp) no_fields)))

  -- The first reading, with the fields that name its node.
  abbrev pub first_reading :
      (Fields → Fields) → Result Error (List Reading) × W → Result Refusal String × W
  first_reading named (err e, w) = (err (failed "Failed to read from OPC-UA server" e), w)
  first_reading named (ok [], w) = (err (refused "No results returned"), w)
  first_reading named (ok (r ∷ rs), w) =
      (marshal_response marshal_indent (object (named (reading_fields r))), w)

  unfoldable pub handle_get_value : String → W → Result Refusal String × W
  unfolding normalize_read_value
  handle_get_value node_id w =
      if is_empty node_id
      then (err (required "node_id"), w)
      else first_reading (λ fs. field "node_id" (text node_id) fs) (cl.read (node_id ∷ []) w)

  abbrev pub node_fields : NodeInfo → Fields → Fields
  node_fields n fs = field "node_id" (text n.node_id) (
      field "browse_name" (text n.browse_name)
        (field "display_name" (text n.display_name) (field "node_class" (text n.node_class) fs)))

  abbrev pub value_of_found : Result Error NodeInfo → W → Result Refusal String × W
  value_of_found (err e) w = (err (failed "Failed to find node with browse name" e), w)
  value_of_found (ok n) w = first_reading (node_fields n) (cl.read (n.node_id ∷ []) w)

  -- `find` is GetNodeByBrowseName.
  unfoldable pub handle_get_value_by_name :
      (String → Result Error NodeInfo) → String → W → Result Refusal String × W
  unfolding normalize_read_value
  handle_get_value_by_name find browse_name w =
      if is_empty browse_name
      then (err (required "browse_name"), w)
      else value_of_found (find browse_name) w

  -- The value of a variable; nil where it could not be read.
  abbrev pub value_or_null : Result Error (List Reading) → Json
  unfolding normalize_read_value
  value_or_null (err e) = null
  value_or_null (ok []) = null
  value_or_null (ok (r ∷ rs)) = value_json (normalize_read_value widen r.value)

  -- `class_name` is the String() of a NodeClass.
  abbrev pub info_answer : (ℕ → String) → String → ℕ → Json → Result Refusal String
  info_answer class_name node_id node_class value = marshal_response marshal_indent (
      object (
        field "node_id" (text node_id)
          (field "node_class" (text (class_name node_class)) (field "value" value no_fields))))

  abbrev pub info_of_class : (ℕ → String) → String → Result Error ℕ × W → Result Refusal String × W
  info_of_class class_name node_id (err e, w) = (err (failed "Failed to get node class" e), w)
  info_of_class class_name node_id (ok c, w) =
      if nat_beq c node_class_variable
      then (let r = cl.read (node_id ∷ []) w in
          (info_answer class_name node_id c (value_or_null r.0), r.1))
      else (info_answer class_name node_id c null, w)

  unfoldable pub handle_node_info : (ℕ → String) → String → W → Result Refusal String × W
  unfolding normalize_read_value
  handle_node_info class_name node_id w =
      if is_empty node_id
      then (err (required "node_id"), w)
      else info_of_class class_name node_id (cl.get_node_class node_id w)
