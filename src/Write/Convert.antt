-- ===== src/Write/Convert.antt =====
-- The conversions of internal/opcua/client.go: `convertTo…`, `convertScalarValue`,
-- `convertArrayValue` and `convertValueToOPCUAType`; those to the integer types are in `Numbers`.
pub mod Numbers
pub mod Casts
pub mod Integers
pub mod Types
pub mod Meaning
unfoldable pub use Numbers.*
use opcua_mcp.Prelude.{
  ℕ, ◌+◌, ◌*◌, String, Bool, true, false, not, ◌&&◌, ◌||◌, List, [], ◌∷◌, Option, none, some,
  nat_beq, ◌==◌, string_eq, if◌then◌else◌,
}
use opcua_mcp.Prelude.Int.{ℤ, pos, neg_part, pos_part, sub_ℕ, lez}
use opcua_mcp.Prelude.Result.{Result, ok, err, or_err, ◌>>=◌}
use opcua_mcp.Value.{
  Value, Values, bool, int, int8, int16, int32, int64, uint8, uint16, uint32, uint64, float32,
  float64, string, time, bytes, guid, array, slice, done, item,
}
use opcua_mcp.Write.Runtime.{Runtime}
use opcua_mcp.Write.Cast.{to_int64, to_float64}
use opcua_mcp.Write.Parse.{
  Error, cannot_convert, bad_text, custom_type, not_an_array, unsupported_element, at_element,
  parse_string_to_float64,
}
use opcua_mcp.Write.NodeType.{
  NodeTypeInfo, Builtin, type_boolean, type_sbyte, type_byte, type_int16, type_uint16, type_int32,
  type_uint32, type_int64, type_uint64, type_float, type_double, type_string, type_date_time,
  type_guid, type_byte_string, builtin, builtin_scalar_go_type,
}

boolean_of_text : String → Result Error Bool
boolean_of_text s =
    if (s == "true") || (s == "1") || (s == "yes") || (s == "on")
    then ok true
    else if (s == "false") || (s == "0") || (s == "no") || (s == "off")
    then ok false
    else err bad_text

abbrev pub date_formats : List String
date_formats =
    "2006-01-02T15:04:05Z07:00" ∷ "2006-01-02T15:04:05.999999999Z07:00" ∷ "2006-01-02T15:04:05Z"
    ∷ "2006-01-02 15:04:05" ∷ "2006-01-02" ∷ []

-- time.Unix(sec, nsec), in nanoseconds since the epoch
unix : ℤ → ℤ → ℤ
unix sec nsec =
    sub_ℕ (pos_part sec * 1000000000 + pos_part nsec) (neg_part sec * 1000000000 + neg_part nsec)

-- An element that fails ends the loop of `convertArrayValue` with its position.
abbrev pub cons_element : ℕ → Result Error Value → Result Error Values → Result Error Values
cons_element i (err e) rest = err (at_element i e)
cons_element i (ok w) (err e) = err e
cons_element i (ok w) (ok ws) = ok (item w ws)

module _ (r : Runtime) where
  -- `c.toInt64(v) != 0`
  nonzero_int : Value → Bool
  nonzero_int v = let z = to_int64 r v in not (lez z (pos 0) && lez (pos 0) z)

  boolean_of_number : Source → Value → Result Error Bool
  unfolding nonzero_int
  boolean_of_number (signed z) v = ok (nonzero_int v)
  boolean_of_number (unsigned n) v = ok (nonzero_int v)
  boolean_of_number (floating b) v = ok (r.is_nonzero b)
  boolean_of_number _ v = err cannot_convert

  unfoldable pub convert_to_boolean : Value → Result Error Bool
  unfolding boolean_of_text boolean_of_number
  convert_to_boolean (bool b) = ok b
  convert_to_boolean (string s) = boolean_of_text (r.to_lower s)
  convert_to_boolean v = boolean_of_number (source r v) v

  double_of : Source → Value → Result Error ℕ
  double_of (text s) v = parse_string_to_float64 r s
  double_of other v = err cannot_convert
  double_of _ v = ok (to_float64 r v)

  unfoldable pub convert_to_double : Value → Result Error ℕ
  unfolding double_of
  convert_to_double v = double_of (source r v) v

  unfoldable pub convert_to_float : Value → Result Error ℕ
  unfolding double_of
  convert_to_float (float32 b) = ok b
  convert_to_float v = do val ← double_of (source r v) v; ok (r.shorten val)

  text_of : Source → Value → String
  text_of (signed z) v = r.format_d (to_int64 r v)
  text_of (unsigned n) v = r.format_d (to_int64 r v)
  text_of (floating b) v = r.format_g b
  text_of _ v = r.format_v v

  unfoldable pub convert_to_string : Value → Result Error String
  unfolding text_of
  convert_to_string (string s) = ok s
  convert_to_string (bool b) = ok (if b then "true" else "false")
  convert_to_string v = ok (text_of (source r v) v)

  unfoldable pub convert_to_guid : Value → Result Error (List ℕ)
  convert_to_guid (string s) = or_err (r.new_guid s) bad_text
  convert_to_guid _ = err cannot_convert

  unfoldable pub convert_to_byte_string : Value → Result Error (List ℕ)
  convert_to_byte_string (string s) = or_err (r.decode_base64 s) bad_text
  convert_to_byte_string _ = err cannot_convert

  -- The loop over the formats: the first that parses.
  first_date : List String → String → Option ℤ
  first_date [] s = none
  first_date (f ∷ fs) s =
      let rest = first_date fs s in elim (r.parse_time f s) [ some t ↦ some t | none ↦ rest ]

  unfoldable pub convert_to_date_time : Value → Result Error ℤ
  unfolding first_date unix
  convert_to_date_time (time t) = ok t
  convert_to_date_time (string s) = or_err (first_date date_formats s) bad_text
  convert_to_date_time (int z) = ok (unix z (pos 0))
  convert_to_date_time (int64 z) = ok (unix z (pos 0))
  convert_to_date_time (float64 b) =
      let sec = r.int64_of b in
      let frac = r.float_sub b (r.float_of_int sec) in
      ok (unix sec (r.int64_of (r.float_mul frac (r.float_of_int (pos 1000000000)))))
  convert_to_date_time _ = err cannot_convert

  -- The switch of `convertScalarValue`.
  unfoldable pub convert_builtin : Builtin → Value → Result Error Value
  convert_builtin type_boolean v = do b ← convert_to_boolean v; ok (bool b)
  convert_builtin type_sbyte v = do z ← convert_to_sbyte r v; ok (int8 z)
  convert_builtin type_byte v = do n ← convert_to_byte r v; ok (uint8 n)
  convert_builtin type_int16 v = do z ← convert_to_int16 r v; ok (int16 z)
  convert_builtin type_uint16 v = do n ← convert_to_uint16 r v; ok (uint16 n)
  convert_builtin type_int32 v = do z ← convert_to_int32 r v; ok (int32 z)
  convert_builtin type_uint32 v = do n ← convert_to_uint32 r v; ok (uint32 n)
  convert_builtin type_int64 v = do z ← convert_to_int64 r v; ok (int64 z)
  convert_builtin type_uint64 v = do n ← convert_to_uint64 r v; ok (uint64 n)
  convert_builtin type_float v = do b ← convert_to_float v; ok (float32 b)
  convert_builtin type_double v = do b ← convert_to_double v; ok (float64 b)
  convert_builtin type_string v = do s ← convert_to_string v; ok (string s)
  convert_builtin type_date_time v = do t ← convert_to_date_time v; ok (time t)
  convert_builtin type_guid v = do g ← convert_to_guid v; ok (guid g)
  convert_builtin type_byte_string v = do b ← convert_to_byte_string v; ok (bytes b)

  abbrev convert_by_id : Option Builtin → Value → Result Error Value
  convert_by_id (some t) v = convert_builtin t v
  convert_by_id none v = ok v

  unfoldable pub convert_scalar_value : NodeTypeInfo → Value → Result Error Value
  unfolding convert_builtin
  convert_scalar_value info v =
      if nat_beq info.data_type.namespace 0
      then convert_by_id (builtin info.data_type.int_id) v
      else err (custom_type info.data_type.namespace info.data_type.int_id)

  -- The loop of `convertArrayValue` from element i on.
  unfoldable pub convert_elements : NodeTypeInfo → ℕ → Values → Result Error Values
  convert_elements info i done = ok done
  convert_elements info i (item v vs) =
      cons_element i (convert_scalar_value info v) (convert_elements info (i + 1) vs)

  convert_array_of : NodeTypeInfo → Option Builtin → Values → Result Error Value
  unfolding convert_elements
  convert_array_of info none vs = err (unsupported_element info.data_type.int_id)
  convert_array_of info (some t) vs = do
    ws ← convert_elements info 0 vs
    ok (slice (builtin_scalar_go_type t) ws)

  unfoldable pub convert_array_value : NodeTypeInfo → Value → Result Error Value
  unfolding convert_array_of
  convert_array_value info (array vs) =
      if nat_beq info.data_type.namespace 0
      then convert_array_of info (builtin info.data_type.int_id) vs
      else err (custom_type info.data_type.namespace info.data_type.int_id)
  convert_array_value info _ = err not_an_array

  unfoldable pub convert_value_to_opcua_type : NodeTypeInfo → Value → Result Error Value
  unfolding convert_array_value convert_scalar_value
  convert_value_to_opcua_type info v =
      if info.is_array then convert_array_value info v else convert_scalar_value info v
