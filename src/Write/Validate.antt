-- ===== src/Write/Validate.antt =====
-- `ValidateValueForNode` of internal/opcua/client.go and its helpers.
pub mod Agreement
use opcua_mcp.Prelude.{
  ℕ, ◌+◌, Bool, true, false, ◌&&◌, List, [], ◌∷◌, Option, none, some, nat_beq, if◌then◌else◌,
}
use opcua_mcp.Prelude.Int.{ℤ, pos, neg, lez}
use opcua_mcp.Prelude.Result.{Result, ok, err, guard, ◌>>=◌, ◌>>◌}
use opcua_mcp.Value.{
  Value, Values, bool, int, int8, int16, int32, int64, uint, uint8, uint16, uint32, uint64, float32,
  float64, string, array, done, item, count,
}
use opcua_mcp.Write.Runtime.{Runtime}
use opcua_mcp.Write.Cast.{to_int64}
use opcua_mcp.Write.Parse.{
  Error, out_of_range, wrong_type, custom_type, not_an_array, wrong_length, not_writable,
  at_element,
}
use opcua_mcp.Write.NodeType.{
  NodeTypeInfo, Builtin, type_boolean, type_sbyte, type_byte, type_int16, type_uint16, type_int32,
  type_uint32, type_int64, type_uint64, type_float, type_double, type_string, type_date_time,
  type_guid, type_byte_string, builtin,
}

abbrev pub is_integer_type : Value → Bool
is_integer_type (int z) = true
is_integer_type (int8 z) = true
is_integer_type (int16 z) = true
is_integer_type (int32 z) = true
is_integer_type (int64 z) = true
is_integer_type (uint n) = true
is_integer_type (uint8 n) = true
is_integer_type (uint16 n) = true
is_integer_type (uint32 n) = true
is_integer_type (uint64 n) = true
is_integer_type (float64 b) = true
is_integer_type _ = false

abbrev pub is_float_type : Value → Bool
is_float_type (float32 b) = true
is_float_type v = is_integer_type v

abbrev pub is_date_time_type : Value → Bool
is_date_time_type (string s) = true
is_date_time_type (int z) = true
is_date_time_type (int64 z) = true
is_date_time_type (float64 b) = true
is_date_time_type _ = false

abbrev is_bool : Value → Bool
is_bool (bool b) = true
is_bool _ = false

abbrev is_string : Value → Bool
is_string (string s) = true
is_string _ = false

module _ (r : Runtime) where
  -- `int64(v) >= min && int64(v) <= max`, for each of the types of `isIntegerType`.
  unfoldable pub is_in_range : ℤ → ℤ → Value → Bool
  is_in_range lo hi v =
      let z = to_int64 r v in if is_integer_type v then lez lo z && lez z hi else false

  unfoldable pub is_non_negative : Value → Bool
  is_non_negative (int z) = lez (pos 0) z
  is_non_negative (int8 z) = lez (pos 0) z
  is_non_negative (int16 z) = lez (pos 0) z
  is_non_negative (int32 z) = lez (pos 0) z
  is_non_negative (int64 z) = lez (pos 0) z
  is_non_negative (float64 b) = r.is_nonnegative b
  is_non_negative v = is_integer_type v

  -- The type test and the range test of an integer data type.
  integer_in : ℤ → ℤ → Value → Result Error (Unit {0})
  integer_in lo hi v = do
    guard (is_integer_type v) wrong_type
    guard (is_in_range lo hi v) out_of_range

  -- The switch of `validateScalarValue`.
  unfoldable pub validate_builtin : Builtin → Value → Result Error (Unit {0})
  unfolding integer_in
  validate_builtin type_boolean v = guard (is_bool v) wrong_type
  validate_builtin type_sbyte v = integer_in (neg 128) (pos 127) v
  validate_builtin type_byte v = integer_in (pos 0) (pos 255) v
  validate_builtin type_int16 v = integer_in (neg 32768) (pos 32767) v
  validate_builtin type_uint16 v = integer_in (pos 0) (pos 65535) v
  validate_builtin type_int32 v = integer_in (neg 2147483648) (pos 2147483647) v
  validate_builtin type_uint32 v = integer_in (pos 0) (pos 4294967295) v
  validate_builtin type_int64 v = guard (is_integer_type v) wrong_type
  validate_builtin type_uint64 v = do
    guard (is_integer_type v) wrong_type
    guard (is_non_negative v) out_of_range
  validate_builtin type_float v = guard (is_float_type v) wrong_type
  validate_builtin type_double v = guard (is_float_type v) wrong_type
  validate_builtin type_string v = guard (is_string v) wrong_type
  validate_builtin type_date_time v = guard (is_date_time_type v) wrong_type
  validate_builtin type_guid v = guard (is_string v) wrong_type
  validate_builtin type_byte_string v = guard (is_string v) wrong_type

  abbrev validate_by_id : Option Builtin → Value → Result Error (Unit {0})
  validate_by_id (some t) v = validate_builtin t v
  validate_by_id none v = ok tt

  unfoldable pub validate_scalar_value : NodeTypeInfo → Value → Result Error (Unit {0})
  unfolding validate_builtin
  validate_scalar_value info v =
      if nat_beq info.data_type.namespace 0
      then validate_by_id (builtin info.data_type.int_id) v
      else err (custom_type info.data_type.namespace info.data_type.int_id)

  abbrev at_position : ℕ → Result Error (Unit {0}) → Result Error (Unit {0})
  at_position i (ok u) = ok u
  at_position i (err e) = err (at_element i e)

  -- The loop of `validateArrayValue` from element i on.
  unfoldable pub validate_elements : NodeTypeInfo → ℕ → Values → Result Error (Unit {0})
  validate_elements info i done = ok tt
  validate_elements info i (item v vs) = do
    at_position i (validate_scalar_value info v)
    validate_elements info (i + 1) vs

  -- The first dimension, unless it is 0, is the length of the array.
  abbrev expected_length : List ℕ → ℕ → Result Error (Unit {0})
  expected_length [] n = ok tt
  expected_length (d ∷ ds) n =
      if nat_beq d 0 then ok tt else if nat_beq n d then ok tt else err (wrong_length d n)

  unfoldable pub validate_array_value : NodeTypeInfo → Value → Result Error (Unit {0})
  unfolding validate_elements
  validate_array_value info (array vs) = do
    expected_length info.array_dimensions (count vs)
    validate_elements info 0 vs
  validate_array_value info _ = err not_an_array

  unfoldable pub validate_value_for_node : NodeTypeInfo → Value → Result Error (Unit {0})
  unfolding validate_array_value validate_scalar_value
  validate_value_for_node info v = do
    guard info.is_user_writable not_writable
    if info.is_array then validate_array_value info v else validate_scalar_value info v
