-- ===== src/Write/Validate/Agreement.antt =====
-- Where validation and conversion agree, and where they do not.
use opcua_mcp.Prelude.{ℕ, ◌-◌, ◌<◌, ◌≤◌, ◌^◌, ◌≡◌, Bool, true, false, arith}
use opcua_mcp.Prelude.Result.{ok, err, is_ok}
use opcua_mcp.Value.{Value, nil, float64, uint, uint64, Fits}
use opcua_mcp.Write.Runtime.{Runtime}
use opcua_mcp.Write.Parse.{out_of_range}
use opcua_mcp.Write.NodeType.{
  Builtin, type_boolean, type_sbyte, type_byte, type_int16, type_uint16, type_int32, type_uint32,
  type_int64, type_uint64, type_float, type_double, type_string, type_date_time, type_guid,
  type_byte_string,
}
use opcua_mcp.Write.Convert.{
  convert_to_sbyte, convert_to_byte, convert_to_int16, convert_to_uint16, convert_to_int32,
  convert_to_uint32, convert_to_int64, convert_to_uint64, convert_to_boolean, convert_to_float,
  convert_to_double, convert_to_string, convert_builtin,
}
use opcua_mcp.Write.Validate.{is_in_range, is_non_negative, validate_builtin}

-- A 64-bit unsigned number, for which `isInRange` wraps.
abbrev pub is_wide : Value → Bool
is_wide (uint n) = true
is_wide (uint64 n) = true
is_wide _ = false

-- The data types that are read from a text by a format of its own.
abbrev pub is_formatted : Builtin → Bool
is_formatted type_date_time = true
is_formatted type_guid = true
is_formatted type_byte_string = true
is_formatted _ = false

module _ (r : Runtime) (law : (b : ℕ) → r.is_nonnegative b ≡ true → r.is_negative b ≡ false) where
  sbyte_agrees :
      (v : Value)
      → is_wide v ≡ false
      → validate_builtin r type_sbyte v ≡ ok tt
      → is_ok (convert_to_sbyte r v) ≡ true
  unfolding validate_builtin is_in_range convert_to_sbyte
  sbyte_agrees nil n h = ground arith
  sbyte_agrees v n h = ground arith

  byte_agrees :
      (v : Value)
      → is_wide v ≡ false
      → validate_builtin r type_byte v ≡ ok tt
      → is_ok (convert_to_byte r v) ≡ true
  unfolding validate_builtin is_in_range convert_to_byte
  byte_agrees nil n h = ground arith
  byte_agrees v n h = ground arith

  int16_agrees :
      (v : Value)
      → is_wide v ≡ false
      → validate_builtin r type_int16 v ≡ ok tt
      → is_ok (convert_to_int16 r v) ≡ true
  unfolding validate_builtin is_in_range convert_to_int16
  int16_agrees nil n h = ground arith
  int16_agrees v n h = ground arith

  uint16_agrees :
      (v : Value)
      → is_wide v ≡ false
      → validate_builtin r type_uint16 v ≡ ok tt
      → is_ok (convert_to_uint16 r v) ≡ true
  unfolding validate_builtin is_in_range convert_to_uint16
  uint16_agrees nil n h = ground arith
  uint16_agrees v n h = ground arith

  int32_agrees :
      (v : Value)
      → is_wide v ≡ false
      → validate_builtin r type_int32 v ≡ ok tt
      → is_ok (convert_to_int32 r v) ≡ true
  unfolding validate_builtin is_in_range convert_to_int32
  int32_agrees nil n h = ground arith
  int32_agrees v n h = ground arith

  uint32_agrees :
      (v : Value)
      → is_wide v ≡ false
      → validate_builtin r type_uint32 v ≡ ok tt
      → is_ok (convert_to_uint32 r v) ≡ true
  unfolding validate_builtin is_in_range convert_to_uint32
  uint32_agrees nil n h = ground arith
  uint32_agrees v n h = ground arith

  int64_agrees :
      (v : Value)
      → Fits v
      → is_wide v ≡ false
      → validate_builtin r type_int64 v ≡ ok tt
      → is_ok (convert_to_int64 r v) ≡ true
  unfolding validate_builtin convert_to_int64
  int64_agrees nil f n h = ground arith
  int64_agrees v f n h = ground arith

  uint64_agrees :
      (v : Value)
      → is_wide v ≡ false
      → validate_builtin r type_uint64 v ≡ ok tt
      → is_ok (convert_to_uint64 r v) ≡ true
  unfolding validate_builtin is_non_negative convert_to_uint64
  uint64_agrees nil n h = ground arith
  uint64_agrees (float64 b) n h = ground (arith, law b)
  uint64_agrees v n h = ground arith

  boolean_agrees :
      (v : Value)
      → is_wide v ≡ false
      → validate_builtin r type_boolean v ≡ ok tt
      → is_ok (convert_to_boolean r v) ≡ true
  unfolding validate_builtin convert_to_boolean
  boolean_agrees nil n h = ground arith
  boolean_agrees v n h = ground arith

  float_agrees :
      (v : Value)
      → is_wide v ≡ false
      → validate_builtin r type_float v ≡ ok tt
      → is_ok (convert_to_float r v) ≡ true
  unfolding validate_builtin convert_to_float
  float_agrees nil n h = ground arith
  float_agrees v n h = ground arith

  double_agrees :
      (v : Value)
      → is_wide v ≡ false
      → validate_builtin r type_double v ≡ ok tt
      → is_ok (convert_to_double r v) ≡ true
  unfolding validate_builtin convert_to_double
  double_agrees nil n h = ground arith
  double_agrees v n h = ground arith

  string_agrees :
      (v : Value)
      → is_wide v ≡ false
      → validate_builtin r type_string v ≡ ok tt
      → is_ok (convert_to_string r v) ≡ true
  unfolding validate_builtin convert_to_string
  string_agrees nil n h = ground arith
  string_agrees v n h = ground arith

  -- A value that passes validation for a numeric, Boolean or text data type is converted without
  -- an error, unless it is of one of the two 64-bit unsigned Go types. (The hypothesis on floats:
  -- what is at least 0 is not below 0. DateTime, Guid and ByteString are not covered.)
  pub validate-convert :
      (t : Builtin) (v : Value)
      → Fits v
      → is_formatted t ≡ false
      → is_wide v ≡ false
      → validate_builtin r t v ≡ ok tt
      → is_ok (convert_builtin r t v) ≡ true
  unfolding convert_builtin
  validate-convert type_boolean v k f n h = ground (arith, boolean_agrees v n h)
  validate-convert type_sbyte v k f n h = ground (arith, sbyte_agrees v n h)
  validate-convert type_byte v k f n h = ground (arith, byte_agrees v n h)
  validate-convert type_int16 v k f n h = ground (arith, int16_agrees v n h)
  validate-convert type_uint16 v k f n h = ground (arith, uint16_agrees v n h)
  validate-convert type_int32 v k f n h = ground (arith, int32_agrees v n h)
  validate-convert type_uint32 v k f n h = ground (arith, uint32_agrees v n h)
  validate-convert type_int64 v k f n h = ground (arith, int64_agrees v k n h)
  validate-convert type_uint64 v k f n h = ground (arith, uint64_agrees v n h)
  validate-convert type_float v k f n h = ground (arith, float_agrees v n h)
  validate-convert type_double v k f n h = ground (arith, double_agrees v n h)
  validate-convert type_string v k f n h = ground (arith, string_agrees v n h)
  validate-convert type_date_time v k f n h = cc
  validate-convert type_guid v k f n h = cc
  validate-convert type_byte_string v k f n h = cc

-- `isInRange` wraps a 64-bit unsigned number: each of the largest 128 passes validation for SByte
-- as a number of -128 to -1, and is refused only by the conversion.
pub sbyte_validation_wraps :
    (r : Runtime) (n : ℕ)
    → 2 ^ 64 - 128 ≤ n
    → n < 2 ^ 64
    → (validate_builtin r type_sbyte (uint64 n) ≡ ok tt)
      × (convert_builtin r type_sbyte (uint64 n) ≡ err out_of_range)
unfolding validate_builtin is_in_range convert_builtin convert_to_sbyte
sbyte_validation_wraps r n lo hi = ground arith
