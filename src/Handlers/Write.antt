-- ===== src/Handlers/Write.antt =====
-- `handleWrite` of internal/mcp/server.go, over the cached type information and the cached write of
-- internal/opcua/caching_client.go.
pub mod Sent
use opcua_mcp.Prelude.{
  ℕ, String, Bool, true, false, List, [], ◌∷◌, ◌++◌, Option, none, some, nat_beq, ◌||◌,
  if◌then◌else◌,
}
use opcua_mcp.Prelude.Int.{pos}
use opcua_mcp.Prelude.Text.{is_empty}
use opcua_mcp.Prelude.Result.{Result, ok, err}
use opcua_mcp.Session.{Error}
use opcua_mcp.Value.{Value}
use opcua_mcp.Write.NodeType.{NodeTypeInfo}
use opcua_mcp.Cache.{Backend, CacheConfig, write}
use opcua_mcp.Cache
use opcua_mcp.Cache.Metadata.{get_node_type_info}
use opcua_mcp.Handlers.Answer.{
  Json, flag, number, text, list, items, Refusal, required, failed, cache_failed, write_failed,
}

-- The lines on the node that every answer has.
abbrev pub type_notes : NodeTypeInfo → List (String × Json)
type_notes i =
    ("Data Type ID", number (pos i.data_type.int_id))
    ∷ ("Value Rank", number i.value_rank)
    ∷ ("Is Array", flag i.is_array)
    ∷ ("Is Scalar", flag i.is_scalar)
    ∷ ("Access Level", number (pos i.access_level))
    ∷ ("User Access Level", number (pos i.user_access_level))
    ∷ ("Is Writable", flag i.is_writable)
    ∷ ("Is User Writable", flag i.is_user_writable)
    ∷ []

abbrev pub dimension_notes : List ℕ → List (String × Json)
dimension_notes [] = []
dimension_notes (n ∷ ns) = ("Array Dimensions", list (items (λ d. number (pos d)) (n ∷ ns))) ∷ []

abbrev is_integer_id : ℕ → Bool
is_integer_id n =
    nat_beq n 2
    || nat_beq n 3
    || nat_beq n 4
    || nat_beq n 5
    || nat_beq n 6
    || nat_beq n 7
    || nat_beq n 8
    || nat_beq n 9

-- The hint for the identifier of the data type, its namespace aside.
abbrev pub hints : ℕ → List (String × Json)
hints n =
    if nat_beq n 1
    then ("Hint", text "This node expects a boolean value (true/false)") ∷ []
    else if is_integer_id n
    then ("Hint", text "This node expects an integer value") ∷ []
    else if nat_beq n 10 || nat_beq n 11
    then ("Hint", text "This node expects a floating-point number") ∷ []
    else if nat_beq n 12
    then ("Hint", text "This node expects a string value") ∷ []
    else if nat_beq n 13
    then ("Hint", text "This node expects a DateTime value (string or number)") ∷ []
    else []

abbrev pub writability_notes : Bool → List (String × Json)
writability_notes true = []
writability_notes false = ("Note", text "This node is not writable for the current user") ∷ []

abbrev pub failure_notes : NodeTypeInfo → List (String × Json)
failure_notes i =
    type_notes i
    ++ (dimension_notes i.array_dimensions
        ++ (hints i.data_type.int_id ++ writability_notes i.is_user_writable))

-- A written node, with the notes on it.
pub record Written : Type 0 where
  pub node_id : String
  pub notes : List (String × Json)

abbrev pub write_answer :
    {W : Type 0} → String → NodeTypeInfo → Option Cache.Error × W → Result Refusal Written × W
write_answer node_id i (some e, w) = (err (write_failed e (failure_notes i)), w)
write_answer node_id i (none, w) = (ok (record { node_id = node_id; notes = type_notes i }), w)

-- `json_value` is json.Unmarshal into an interface{}.
module _ {W : Type 0} (b : Backend W) (cfg : CacheConfig)
    (json_value : String → Result Error Value) where
  abbrev pub write_typed :
      String → Value → Result Cache.Error NodeTypeInfo × W → Result Refusal Written × W
  unfolding write
  write_typed node_id v (err e, w) = (err (cache_failed "Failed to get node type information" e), w)
  write_typed node_id v (ok i, w) = write_answer node_id i (write b cfg node_id v w)

  abbrev pub write_parsed : String → Result Error Value → W → Result Refusal Written × W
  unfolding write get_node_type_info
  write_parsed node_id (err e) w = (err (failed "Invalid JSON value" e), w)
  write_parsed node_id (ok v) w = write_typed node_id v (get_node_type_info b cfg node_id w)

  unfoldable pub handle_write : String → String → W → Result Refusal Written × W
  unfolding write get_node_type_info
  handle_write node_id value w =
      if is_empty node_id
      then (err (required "node_id"), w)
      else if is_empty value
      then (err (required "value"), w)
      else write_parsed node_id (json_value value) w
