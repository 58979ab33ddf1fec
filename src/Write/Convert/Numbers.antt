-- ===== src/Write/Convert/Numbers.antt =====
-- The conversions of internal/opcua/client.go to the integer types. `int8(val)` and its like are the
-- wrapping conversions of `Cast`; the tests before them are those of the source.
use opcua_mcp.Prelude.{ℕ, ◌*◌, ◌-◌, String, Bool, not, ◌||◌, ltb, string_eq, if◌then◌else◌}
use opcua_mcp.Prelude.Int.{ℤ, pos, neg, lez}
use opcua_mcp.Prelude.Result.{Result, ok, err, ◌>>=◌}
use opcua_mcp.Value.{
  Value, int, int8, int16, int32, int64, uint, uint8, uint16, uint32, uint64, float32, float64,
  string,
}
use opcua_mcp.Write.Runtime.{Runtime}
use opcua_mcp.Write.Cast.{half64, wrap_signed, wrap_unsigned, to_int64, to_uint64, to_float64}
use opcua_mcp.Write.Parse.{
  Error, cannot_convert, out_of_range, parse_string_to_int64, parse_string_to_uint64,
}

abbrev ltz : ℤ → ℤ → Bool
ltz a b = not (lez b a)

-- The cases of the type switches of the numeric conversions, each with the number that its branch
-- works on: `toInt64`, `toUInt64`, `toFloat64` of the value, or the text.
pub data Source : Type 0 where
  signed : ℤ → Source
  unsigned : ℕ → Source
  floating : ℕ → Source
  text : String → Source
  other : Source

-- val < min || val > max, for the signed type of 2 * half values
unfoldable pub in_signed : ℕ → ℤ → Result Error ℤ
in_signed half z =
    if ltz z (neg half) || ltz (pos (half - 1)) z then err out_of_range else ok (wrap_signed half z)

unfoldable pub in_unsigned : ℕ → ℤ → Result Error ℕ
in_unsigned m z =
    if ltz z (pos 0) || ltz (pos (m - 1)) z then err out_of_range else ok (wrap_unsigned m z)

module _ (r : Runtime) where
  abbrev pub source : Value → Source
  source (int z) = signed (to_int64 r (int z))
  source (int8 z) = signed (to_int64 r (int8 z))
  source (int16 z) = signed (to_int64 r (int16 z))
  source (int32 z) = signed (to_int64 r (int32 z))
  source (int64 z) = signed (to_int64 r (int64 z))
  source (uint n) = unsigned (to_uint64 r (uint n))
  source (uint8 n) = unsigned (to_uint64 r (uint8 n))
  source (uint16 n) = unsigned (to_uint64 r (uint16 n))
  source (uint32 n) = unsigned (to_uint64 r (uint32 n))
  source (uint64 n) = unsigned (to_uint64 r (uint64 n))
  source (float32 b) = floating (to_float64 r (float32 b))
  source (float64 b) = floating (to_float64 r (float64 b))
  source (string s) = text s
  source _ = other

  -- The branches that `convertToSByte`, `convertToInt16` and `convertToInt32` share.
  unfoldable pub narrow_signed : ℕ → Source → Result Error ℤ
  unfolding in_signed
  narrow_signed half (signed z) = in_signed half z
  narrow_signed half (unsigned n) =
      if ltb (half - 1) n then err out_of_range else ok (wrap_signed half (pos n))
  narrow_signed half (floating b) = in_signed half (r.int64_of b)
  narrow_signed half (text s) = do val ← parse_string_to_int64 s; in_signed half val
  narrow_signed half other = err cannot_convert

  -- Those of `convertToByte`, `convertToUInt16` and `convertToUInt32`.
  unfoldable pub narrow_unsigned : ℕ → Source → Result Error ℕ
  unfolding in_unsigned
  narrow_unsigned m (signed z) = in_unsigned m z
  narrow_unsigned m (unsigned n) = if ltb (m - 1) n then err out_of_range else ok n
  narrow_unsigned m (floating b) = in_unsigned m (r.int64_of b)
  narrow_unsigned m (text s) = do val ← parse_string_to_int64 s; in_unsigned m val
  narrow_unsigned m other = err cannot_convert

  unfoldable pub convert_to_sbyte : Value → Result Error ℤ
  unfolding narrow_signed
  convert_to_sbyte (int8 z) = ok z
  convert_to_sbyte v = narrow_signed 128 (source v)

  unfoldable pub convert_to_byte : Value → Result Error ℕ
  unfolding narrow_unsigned
  convert_to_byte (uint8 n) = ok n
  convert_to_byte v = narrow_unsigned 256 (source v)

  unfoldable pub convert_to_int16 : Value → Result Error ℤ
  unfolding narrow_signed
  convert_to_int16 (int16 z) = ok z
  convert_to_int16 v = narrow_signed 32768 (source v)

  unfoldable pub convert_to_uint16 : Value → Result Error ℕ
  unfolding narrow_unsigned
  convert_to_uint16 (uint16 n) = ok n
  convert_to_uint16 v = narrow_unsigned 65536 (source v)

  unfoldable pub convert_to_int32 : Value → Result Error ℤ
  unfolding narrow_signed
  convert_to_int32 (int32 z) = ok z
  convert_to_int32 v = narrow_signed 2147483648 (source v)

  unfoldable pub convert_to_uint32 : Value → Result Error ℕ
  unfolding narrow_unsigned
  convert_to_uint32 (uint32 n) = ok n
  convert_to_uint32 v = narrow_unsigned 4294967296 (source v)

  unfoldable pub widen_to_int64 : Source → Result Error ℤ
  widen_to_int64 (signed z) = ok z
  widen_to_int64 (unsigned n) =
      if ltb (half64 - 1) n then err out_of_range else ok (wrap_signed half64 (pos n))
  widen_to_int64 (floating b) = ok (r.int64_of b)
  widen_to_int64 (text s) = parse_string_to_int64 s
  widen_to_int64 other = err cannot_convert

  unfoldable pub convert_to_int64 : Value → Result Error ℤ
  unfolding widen_to_int64
  convert_to_int64 (int64 z) = ok z
  convert_to_int64 v = widen_to_int64 (source v)

  unfoldable pub widen_to_uint64 : Source → Result Error ℕ
  widen_to_uint64 (signed z) =
      if ltz z (pos 0) then err out_of_range else ok (wrap_unsigned (2 * half64) z)
  widen_to_uint64 (unsigned n) = ok n
  widen_to_uint64 (floating b) = if r.is_negative b then err out_of_range else ok (r.uint64_of b)
  widen_to_uint64 (text s) = parse_string_to_uint64 s
  widen_to_uint64 other = err cannot_convert

  unfoldable pub convert_to_uint64 : Value → Result Error ℕ
  unfolding widen_to_uint64
  convert_to_uint64 (uint64 n) = ok n
  convert_to_uint64 v = widen_to_uint64 (source v)
