-- ===== src/Write/Convert/Integers.antt =====
-- What the conversions to the integer types do with values of integer types.
use opcua_mcp.Prelude.{ℕ, ◌-◌, ◌<◌, ◌≡◌, Option, none, some, arith}
use opcua_mcp.Prelude.Int.{ℤ, pos, neg, pos_part}
use opcua_mcp.Prelude.Result.{Result}
use opcua_mcp.Value.{
  Value, int8, int16, int32, int64, uint8, uint16, uint32, uint64, nil, number, Fits,
}
use opcua_mcp.Write.Runtime.{Runtime}
use opcua_mcp.Write.Cast.{half64}
use opcua_mcp.Write.Parse.{Error}
use opcua_mcp.Write.NodeType.{
  Builtin, type_sbyte, type_byte, type_int16, type_uint16, type_int32, type_uint32, type_int64,
  type_uint64,
}
use opcua_mcp.Write.Convert.{
  source, narrow_signed, narrow_unsigned, widen_to_int64, widen_to_uint64, convert_to_sbyte,
  convert_to_byte, convert_to_int16, convert_to_uint16, convert_to_int32, convert_to_uint32,
  convert_to_int64, convert_to_uint64, convert_builtin,
}
use opcua_mcp.Write.Convert.Casts.{
  wrap_signed_lem, wrap_unsigned_lem, narrowed, in_signed_lem, in_unsigned_lem,
}

abbrev same : ℤ → ℤ
same z = z

-- What an integer becomes as a value of an integer type; `none` at the other types.
abbrev pub integer_spec : Builtin → ℤ → Option (Result Error Value)
integer_spec type_sbyte z = some (narrowed (neg 128) (pos 127) int8 z)
integer_spec type_byte z = some (narrowed (pos 0) (pos 255) (λ k. uint8 (pos_part k)) z)
integer_spec type_int16 z = some (narrowed (neg 32768) (pos 32767) int16 z)
integer_spec type_uint16 z = some (narrowed (pos 0) (pos 65535) (λ k. uint16 (pos_part k)) z)
integer_spec type_int32 z = some (narrowed (neg 2147483648) (pos 2147483647) int32 z)
integer_spec type_uint32 z = some (narrowed (pos 0) (pos 4294967295) (λ k. uint32 (pos_part k)) z)
integer_spec type_int64 z = some (narrowed (neg half64) (pos (half64 - 1)) int64 z)
integer_spec type_uint64 z =
    some (narrowed (pos 0) (pos 18446744073709551615) (λ k. uint64 (pos_part k)) z)
integer_spec _ z = none

module _ (r : Runtime) where
  narrow_signed_lem :
      (half : ℕ) (v : Value) (z : ℤ)
      → 0 < half
      → number v ≡ some z
      → Fits v
      → narrow_signed r half (source r v) ≡ narrowed (neg half) (pos (half - 1)) same z
  unfolding narrow_signed
  narrow_signed_lem half nil z p n f = cc
  narrow_signed_lem half v z p n f =
      ground (arith, in_signed_lem half z p, wrap_signed_lem half z p)

  narrow_unsigned_lem :
      (m : ℕ) (v : Value) (z : ℤ)
      → 0 < m
      → number v ≡ some z
      → Fits v
      → narrow_unsigned r m (source r v) ≡ narrowed (pos 0) (pos (m - 1)) pos_part z
  unfolding narrow_unsigned
  narrow_unsigned_lem m nil z p n f = cc
  narrow_unsigned_lem m v z p n f = ground (arith, in_unsigned_lem m z p)

  widen_to_int64_lem :
      (v : Value) (z : ℤ)
      → number v ≡ some z
      → Fits v
      → widen_to_int64 r (source r v) ≡ narrowed (neg half64) (pos (half64 - 1)) same z
  unfolding widen_to_int64
  widen_to_int64_lem nil z n f = cc
  widen_to_int64_lem v z n f = ground (arith, wrap_signed_lem half64 z)

  widen_to_uint64_lem :
      (v : Value) (z : ℤ)
      → number v ≡ some z
      → Fits v
      → widen_to_uint64 r (source r v) ≡ narrowed (pos 0) (pos 18446744073709551615) pos_part z
  unfolding widen_to_uint64
  widen_to_uint64_lem nil z n f = cc
  widen_to_uint64_lem v z n f = ground (arith, wrap_unsigned_lem 18446744073709551616 z)

  convert_to_sbyte_lem :
      (v : Value) (z : ℤ)
      → number v ≡ some z
      → Fits v
      → convert_to_sbyte r v ≡ narrowed (neg 128) (pos 127) same z
  unfolding convert_to_sbyte
  convert_to_sbyte_lem (int8 k) z n f = ground arith
  convert_to_sbyte_lem v z n f = narrow_signed_lem 128 v z (omega arith) n f

  convert_to_byte_lem :
      (v : Value) (z : ℤ)
      → number v ≡ some z
      → Fits v
      → convert_to_byte r v ≡ narrowed (pos 0) (pos 255) pos_part z
  unfolding convert_to_byte
  convert_to_byte_lem (uint8 k) z n f = ground arith
  convert_to_byte_lem v z n f = narrow_unsigned_lem 256 v z (omega arith) n f

  convert_to_int16_lem :
      (v : Value) (z : ℤ)
      → number v ≡ some z
      → Fits v
      → convert_to_int16 r v ≡ narrowed (neg 32768) (pos 32767) same z
  unfolding convert_to_int16
  convert_to_int16_lem (int16 k) z n f = ground arith
  convert_to_int16_lem v z n f = narrow_signed_lem 32768 v z (omega arith) n f

  convert_to_uint16_lem :
      (v : Value) (z : ℤ)
      → number v ≡ some z
      → Fits v
      → convert_to_uint16 r v ≡ narrowed (pos 0) (pos 65535) pos_part z
  unfolding convert_to_uint16
  convert_to_uint16_lem (uint16 k) z n f = ground arith
  convert_to_uint16_lem v z n f = narrow_unsigned_lem 65536 v z (omega arith) n f

  convert_to_int32_lem :
      (v : Value) (z : ℤ)
      → number v ≡ some z
      → Fits v
      → convert_to_int32 r v ≡ narrowed (neg 2147483648) (pos 2147483647) same z
  unfolding convert_to_int32
  convert_to_int32_lem (int32 k) z n f = ground arith
  convert_to_int32_lem v z n f = narrow_signed_lem 2147483648 v z (omega arith) n f

  convert_to_uint32_lem :
      (v : Value) (z : ℤ)
      → number v ≡ some z
      → Fits v
      → convert_to_uint32 r v ≡ narrowed (pos 0) (pos 4294967295) pos_part z
  unfolding convert_to_uint32
  convert_to_uint32_lem (uint32 k) z n f = ground arith
  convert_to_uint32_lem v z n f = narrow_unsigned_lem 4294967296 v z (omega arith) n f

  convert_to_int64_lem :
      (v : Value) (z : ℤ)
      → number v ≡ some z
      → Fits v
      → convert_to_int64 r v ≡ narrowed (neg half64) (pos (half64 - 1)) same z
  unfolding convert_to_int64
  convert_to_int64_lem (int64 k) z n f = ground arith
  convert_to_int64_lem v z n f = widen_to_int64_lem v z n f

  convert_to_uint64_lem :
      (v : Value) (z : ℤ)
      → number v ≡ some z
      → Fits v
      → convert_to_uint64 r v ≡ narrowed (pos 0) (pos 18446744073709551615) pos_part z
  unfolding convert_to_uint64
  convert_to_uint64_lem (uint64 k) z n f = ground arith
  convert_to_uint64_lem v z n f = widen_to_uint64_lem v z n f

  -- The write path converts a value of any integer type to an integer data type exactly when the
  -- number fits that type, to the same number; otherwise the error is `out_of_range`.
  pub convert_builtin-integer :
      (t : Builtin) (v : Value) (z : ℤ) {w : Result Error Value}
      → integer_spec t z ≡ some w
      → number v ≡ some z
      → Fits v
      → convert_builtin r t v ≡ w
  unfolding convert_builtin
  convert_builtin-integer type_sbyte v z s n f = ground (arith, convert_to_sbyte_lem v z n f)
  convert_builtin-integer type_byte v z s n f = ground (arith, convert_to_byte_lem v z n f)
  convert_builtin-integer type_int16 v z s n f = ground (arith, convert_to_int16_lem v z n f)
  convert_builtin-integer type_uint16 v z s n f = ground (arith, convert_to_uint16_lem v z n f)
  convert_builtin-integer type_int32 v z s n f = ground (arith, convert_to_int32_lem v z n f)
  convert_builtin-integer type_uint32 v z s n f = ground (arith, convert_to_uint32_lem v z n f)
  convert_builtin-integer type_int64 v z s n f = ground (arith, convert_to_int64_lem v z n f)
  convert_builtin-integer type_uint64 v z s n f = ground (arith, convert_to_uint64_lem v z n f)
  convert_builtin-integer _ v z s n f = cc
