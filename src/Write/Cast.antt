-- ===== src/Write/Cast.antt =====
-- Go's integer conversions, and `toInt64`, `toUInt64`, `toFloat64` of internal/opcua/client.go.
use opcua_mcp.Prelude.{ℕ, ◌*◌, ◌%◌, ◌-◌, ltb, if◌then◌else◌}
use opcua_mcp.Prelude.Int.{ℤ, pos, negsuc, sub_ℕ}
use opcua_mcp.Value.{
  Value, int, int8, int16, int32, int64, uint, uint8, uint16, uint32, uint64, float32, float64,
}
use opcua_mcp.Write.Runtime.{Runtime}

-- The conversion of an integer to an unsigned type of `m` values.
abbrev pub wrap_unsigned : ℕ → ℤ → ℕ
wrap_unsigned m (pos n) = n % m
wrap_unsigned m (negsuc n) = m - 1 - n % m

-- The conversion to a signed type of `2 * half` values, in two's complement.
abbrev pub wrap_signed : ℕ → ℤ → ℤ
wrap_signed half z =
    let n = wrap_unsigned (2 * half) z in if ltb n half then pos n else sub_ℕ n (2 * half)

abbrev pub half64 : ℕ
half64 = 9223372036854775808

module _ (r : Runtime) where
  abbrev pub to_int64 : Value → ℤ
  to_int64 (int z) = z
  to_int64 (int8 z) = z
  to_int64 (int16 z) = z
  to_int64 (int32 z) = z
  to_int64 (int64 z) = z
  to_int64 (uint n) = wrap_signed half64 (pos n)
  to_int64 (uint8 n) = pos n
  to_int64 (uint16 n) = pos n
  to_int64 (uint32 n) = pos n
  to_int64 (uint64 n) = wrap_signed half64 (pos n)
  to_int64 (float64 b) = r.int64_of b
  to_int64 _ = pos 0

  abbrev pub to_uint64 : Value → ℕ
  to_uint64 (int z) = wrap_unsigned (2 * half64) z
  to_uint64 (int8 z) = wrap_unsigned (2 * half64) z
  to_uint64 (int16 z) = wrap_unsigned (2 * half64) z
  to_uint64 (int32 z) = wrap_unsigned (2 * half64) z
  to_uint64 (int64 z) = wrap_unsigned (2 * half64) z
  to_uint64 (uint n) = n
  to_uint64 (uint8 n) = n
  to_uint64 (uint16 n) = n
  to_uint64 (uint32 n) = n
  to_uint64 (uint64 n) = n
  to_uint64 (float64 b) = r.uint64_of b
  to_uint64 _ = 0

  abbrev pub to_float64 : Value → ℕ
  to_float64 (int z) = r.float_of_int z
  to_float64 (int8 z) = r.float_of_int z
  to_float64 (int16 z) = r.float_of_int z
  to_float64 (int32 z) = r.float_of_int z
  to_float64 (int64 z) = r.float_of_int z
  to_float64 (uint n) = r.float_of_int (pos n)
  to_float64 (uint8 n) = r.float_of_int (pos n)
  to_float64 (uint16 n) = r.float_of_int (pos n)
  to_float64 (uint32 n) = r.float_of_int (pos n)
  to_float64 (uint64 n) = r.float_of_int (pos n)
  to_float64 (float32 b) = r.widen b
  to_float64 (float64 b) = b
  to_float64 _ = 0
