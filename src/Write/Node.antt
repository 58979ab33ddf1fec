-- ===== src/Write/Node.antt =====
-- `Write`, `writeWithBasicConversion` and `GetNodeTypeInfo` of internal/opcua/client.go: the write of
-- a dynamic value from the check of the connection to the request.
pub mod Sent
pub mod Typed
use opcua_mcp.Prelude.{
  ℕ, String, Bool, true, false, not, List, [], Option, none, some, if◌then◌else◌,
}
use opcua_mcp.Prelude.Int.{ℤ}
use opcua_mcp.Prelude.Result.{Result, ok, err}
use opcua_mcp.Value.{Value}
use opcua_mcp.Session.{Net, Client, Outcome, WriteRequest, is_connected, send_write}
use opcua_mcp.Session
use opcua_mcp.Write.Runtime.{Runtime}
use opcua_mcp.Write.Parse
use opcua_mcp.Write.NodeType.{
  DataType, NodeTypeInfo, rank_is_array, rank_is_scalar, has_write_access,
}
use opcua_mcp.Write.Validate.{validate_value_for_node}
use opcua_mcp.Write.Convert.{convert_value_to_opcua_type}

pub data Error : Type 0 where
  not_connected invalid_node_id no_variant : Error
  not_valid : Parse.Error → Error
  not_converted : Parse.Error → Error
  not_sent : Session.Error → Error

-- A read of an attribute; it may replace the connection.
abbrev pub Reading : Type 0 → Type 0 → Type 0
Reading W A = Result Session.Error A × Client × W

-- `ua.ParseNodeID`, `ua.NewVariant`, and the reads of the attributes of a node.
pub record Wire (W : Type 0) : Type 0 where
  pub is_node_id : String → Bool
  pub is_variant : Value → Bool
  pub data_type : String → Client → W → Reading W DataType
  pub value_rank : String → Client → W → Reading W ℤ
  pub array_dimensions : String → Client → W → Reading W (List ℕ)
  pub access_level : String → Client → W → Reading W ℕ
  pub user_access_level : String → Client → W → Reading W ℕ

pub record Written (W : Type 0) : Type 0 where
  pub error : Option Error
  pub client : Client
  pub world : W

abbrev pub type_info : DataType → ℤ → List ℕ → ℕ → ℕ → NodeTypeInfo
type_info data_type rank dimensions access user_access = record {
  data_type = data_type;
  value_rank = rank;
  array_dimensions = dimensions;
  is_array = rank_is_array rank;
  is_scalar = rank_is_scalar rank;
  access_level = access;
  user_access_level = user_access;
  is_writable = has_write_access access;
  is_user_writable = has_write_access user_access;
}

module _ {W : Type 0} where
  -- `if err != nil { return nil, … }` after a read.
  abbrev pub then_read : {A B : Type 0} → Reading W A → (A → Client → W → Reading W B) → Reading W B
  then_read (err e, c, w) next = (err e, c, w)
  then_read (ok a, c, w) next = next a c w

  -- The array dimensions are optional.
  abbrev pub or_empty : Reading W (List ℕ) → Reading W (List ℕ)
  or_empty (err e, c, w) = (ok [], c, w)
  or_empty (ok dimensions, c, w) = (ok dimensions, c, w)

  abbrev pub refused : Error → Client → W → Written W
  refused e c w = record { error = some e; client = c; world = w }

  abbrev pub written : Outcome W → Written W
  written o = record {
    error = elim o.error [ some e ↦ some (not_sent e) | none ↦ none ];
    client = o.after;
    world = o.world;
  }

  module _ (wire : Wire W) where
    -- The steps of `GetNodeTypeInfo` from the last to the first.
    abbrev pub with_user_access :
        DataType → ℤ → List ℕ → ℕ → ℕ → Client → W → Reading W NodeTypeInfo
    with_user_access data_type rank dimensions access user_access c w =
        (ok (type_info data_type rank dimensions access user_access), c, w)

    abbrev pub with_access :
        String → DataType → ℤ → List ℕ → ℕ → Client → W → Reading W NodeTypeInfo
    with_access n data_type rank dimensions access c w =
        then_read (wire.user_access_level n c w) (with_user_access data_type rank dimensions access)

    abbrev pub with_dimensions :
        String → DataType → ℤ → List ℕ → Client → W → Reading W NodeTypeInfo
    with_dimensions n data_type rank dimensions c w =
        then_read (wire.access_level n c w) (with_access n data_type rank dimensions)

    abbrev pub with_rank : String → DataType → ℤ → Client → W → Reading W NodeTypeInfo
    with_rank n data_type rank c w =
        then_read (or_empty (wire.array_dimensions n c w)) (with_dimensions n data_type rank)

    abbrev pub with_data_type : String → DataType → Client → W → Reading W NodeTypeInfo
    with_data_type n data_type c w = then_read (wire.value_rank n c w) (with_rank n data_type)

    unfoldable pub get_node_type_info : String → Client → W → Reading W NodeTypeInfo
    get_node_type_info n c w = then_read (wire.data_type n c w) (with_data_type n)

    module _ (net : Net W) (r : Runtime) where
      -- The end of `Write`, and the whole of `writeWithBasicConversion`.
      unfoldable pub write_variant : String → Value → Client → W → Written W
      write_variant n v c w =
          if wire.is_variant v
          then written (send_write net (record { node_id = n; value = v }) c w)
          else refused no_variant c w

      abbrev pub convert_and_write : String → Result Parse.Error Value → Client → W → Written W
      convert_and_write n (err e) c w = refused (not_converted e) c w
      convert_and_write n (ok x) c w = write_variant n x c w

      abbrev pub validate_and_write :
          NodeTypeInfo → String → Value → Result Parse.Error (Unit {0}) → Client → W → Written W
      validate_and_write info n v (err e) c w = refused (not_valid e) c w
      validate_and_write info n v (ok _) c w =
          convert_and_write n (convert_value_to_opcua_type r info v) c w

      abbrev pub write_with_type : String → Value → Reading W NodeTypeInfo → Written W
      write_with_type n v (err e, c, w) = write_variant n v c w
      write_with_type n v (ok info, c, w) =
          validate_and_write info n v (validate_value_for_node r info v) c w

      unfoldable pub write_node : String → Value → Client → W → Written W
      unfolding write_variant get_node_type_info
      write_node n v c w =
          if not (is_connected c)
          then refused not_connected c w
          else if not (wire.is_node_id n)
          then refused invalid_node_id c w
          else write_with_type n v (get_node_type_info n c w)
