-- ===== src/Write/NodeType.antt =====
-- `NodeTypeInfo` of internal/opcua/client.go: the type of a node, and the builtin data types of
-- namespace 0, with the numeric identifiers of the OPC UA specification.
use Prim.Native.Nat.{bit_and}
use opcua_mcp.Prelude.{ℕ, Bool, not, ◌&&◌, ◌||◌, List, Option, none, some, nat_beq, if◌then◌else◌}
use opcua_mcp.Prelude.Int.{ℤ, pos, neg, lez}
use opcua_mcp.Value.{
  GoType, go_bool, go_int8, go_int16, go_int32, go_int64, go_uint8, go_uint16, go_uint32, go_uint64,
  go_float32, go_float64, go_string, go_time, go_guid, go_bytes,
}

pub data Builtin : Type 0 where
  type_boolean type_sbyte type_byte type_int16 type_uint16 type_int32 type_uint32 type_int64
        type_uint64 :
      Builtin
  type_float type_double type_string type_date_time type_guid type_byte_string : Builtin

-- The cases of the switches over `ua.TypeID…`; `none` is their default.
abbrev pub builtin : ℕ → Option Builtin
builtin n =
    if nat_beq n 1
    then some type_boolean
    else if nat_beq n 2
    then some type_sbyte
    else if nat_beq n 3
    then some type_byte
    else if nat_beq n 4
    then some type_int16
    else if nat_beq n 5
    then some type_uint16
    else if nat_beq n 6
    then some type_int32
    else if nat_beq n 7
    then some type_uint32
    else if nat_beq n 8
    then some type_int64
    else if nat_beq n 9
    then some type_uint64
    else if nat_beq n 10
    then some type_float
    else if nat_beq n 11
    then some type_double
    else if nat_beq n 12
    then some type_string
    else if nat_beq n 13
    then some type_date_time
    else if nat_beq n 14
    then some type_guid
    else if nat_beq n 15
    then some type_byte_string
    else none

-- `builtinScalarGoType`, by case.
abbrev pub builtin_scalar_go_type : Builtin → GoType
builtin_scalar_go_type type_boolean = go_bool
builtin_scalar_go_type type_sbyte = go_int8
builtin_scalar_go_type type_byte = go_uint8
builtin_scalar_go_type type_int16 = go_int16
builtin_scalar_go_type type_uint16 = go_uint16
builtin_scalar_go_type type_int32 = go_int32
builtin_scalar_go_type type_uint32 = go_uint32
builtin_scalar_go_type type_int64 = go_int64
builtin_scalar_go_type type_uint64 = go_uint64
builtin_scalar_go_type type_float = go_float32
builtin_scalar_go_type type_double = go_float64
builtin_scalar_go_type type_string = go_string
builtin_scalar_go_type type_date_time = go_time
builtin_scalar_go_type type_guid = go_guid
builtin_scalar_go_type type_byte_string = go_bytes

-- A numeric `*ua.NodeID`.
pub record DataType : Type 0 where
  pub namespace : ℕ
  pub int_id : ℕ

pub record NodeTypeInfo : Type 0 where
  pub data_type : DataType
  pub value_rank : ℤ
  pub array_dimensions : List ℕ
  pub is_array : Bool
  pub is_scalar : Bool
  pub access_level : ℕ
  pub user_access_level : ℕ
  pub is_writable : Bool
  pub is_user_writable : Bool

abbrev pub write_access_bit : ℕ
write_access_bit = 0x02

abbrev pub has_write_access : ℕ → Bool
has_write_access level = not (nat_beq (bit_and level write_access_bit) 0)

abbrev pub rank_is_array : ℤ → Bool
rank_is_array rank = not (lez rank (pos 0))

abbrev pub rank_is_scalar : ℤ → Bool
rank_is_scalar rank =
    (lez rank (neg 1) && lez (neg 1) rank) || (lez rank (pos 0) && lez (pos 0) rank)
