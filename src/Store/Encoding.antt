-- ===== src/Store/Encoding.antt =====
-- internal/store/value_encoding.go: values with a tag for their Go type.
pub mod RoundTrip
use opcua_mcp.Prelude.{
  ℕ, ◌+◌, String, Bool, true, false, ◌==◌, string_eq, if◌then◌else◌, Option, none, some,
}
use opcua_mcp.Prelude.Result.{Result, ok, err, ◌>>=◌}
use opcua_mcp.Value.{
  GoType, go_bool, go_int8, go_int16, go_int32, go_int64, go_uint8, go_uint16, go_uint32, go_uint64,
  go_float32, go_float64, go_string, go_time, go_bytes, Value, Values, bool, int8, int16, int32,
  int64, uint8, uint16, uint32, uint64, float32, float64, string, time, bytes, array, done, item,
}
use opcua_mcp.Store.Types.{
  Error, cannot_encode, unknown_kind, at_element, EncodedValue, EncodedValues, encoded, no_elems,
  elem,
}

-- json.Marshal of a scalar, json.Unmarshal into a variable of a type, and the nil message.
pub record Json (Raw : Type 0) : Type 0 where
  pub marshal : Value → Result Error Raw
  pub unmarshal : GoType → Raw → Result Error Value
  pub no_raw : Raw

-- The constants of `valueKind`.
abbrev pub kind_of : GoType → Option String
kind_of go_bool = some "bool"
kind_of go_int8 = some "int8"
kind_of go_int16 = some "int16"
kind_of go_int32 = some "int32"
kind_of go_int64 = some "int64"
kind_of go_uint8 = some "uint8"
kind_of go_uint16 = some "uint16"
kind_of go_uint32 = some "uint32"
kind_of go_uint64 = some "uint64"
kind_of go_float32 = some "float32"
kind_of go_float64 = some "float64"
kind_of go_string = some "string"
kind_of go_time = some "time"
kind_of go_bytes = some "bytes"
kind_of _ = none

abbrev pub kind_array : String
kind_array = "array"

-- The switch of `decode` over the scalar kinds.
unfoldable pub scalar_type : String → Option GoType
scalar_type k =
    if k == "bool"
    then some go_bool
    else if k == "int8"
    then some go_int8
    else if k == "int16"
    then some go_int16
    else if k == "int32"
    then some go_int32
    else if k == "int64"
    then some go_int64
    else if k == "uint8"
    then some go_uint8
    else if k == "uint16"
    then some go_uint16
    else if k == "uint32"
    then some go_uint32
    else if k == "uint64"
    then some go_uint64
    else if k == "float32"
    then some go_float32
    else if k == "float64"
    then some go_float64
    else if k == "string"
    then some go_string
    else if k == "time"
    then some go_time
    else if k == "bytes"
    then some go_bytes
    else none

module _ {Raw : Type 0} (j : Json Raw) where
  unfoldable pub encode_scalar : String → Value → Result Error (EncodedValue Raw)
  encode_scalar kind v = do raw ← j.marshal v; ok (encoded kind raw no_elems)

  -- An element that fails ends the loop over an array with its position.
  abbrev pub cons_encoded :
      ℕ
      → Result Error (EncodedValue Raw)
      → Result Error (EncodedValues Raw)
      → Result Error (EncodedValues Raw)
  cons_encoded i (err e) rest = err (at_element i e)
  cons_encoded i (ok v) (err e) = err e
  cons_encoded i (ok v) (ok vs) = ok (elem v vs)

  abbrev pub of_elems : Result Error (EncodedValues Raw) → Result Error (EncodedValue Raw)
  of_elems (err e) = err e
  of_elems (ok vs) = ok (encoded kind_array j.no_raw vs)

  unfoldable mutual
    unfolding encode_scalar

    pub encode : Value → Result Error (EncodedValue Raw)
    encode (bool b) = encode_scalar "bool" (bool b)
    encode (int8 z) = encode_scalar "int8" (int8 z)
    encode (int16 z) = encode_scalar "int16" (int16 z)
    encode (int32 z) = encode_scalar "int32" (int32 z)
    encode (int64 z) = encode_scalar "int64" (int64 z)
    encode (uint8 n) = encode_scalar "uint8" (uint8 n)
    encode (uint16 n) = encode_scalar "uint16" (uint16 n)
    encode (uint32 n) = encode_scalar "uint32" (uint32 n)
    encode (uint64 n) = encode_scalar "uint64" (uint64 n)
    encode (float32 b) = encode_scalar "float32" (float32 b)
    encode (float64 b) = encode_scalar "float64" (float64 b)
    encode (string s) = encode_scalar "string" (string s)
    encode (time t) = encode_scalar "time" (time t)
    encode (bytes b) = encode_scalar "bytes" (bytes b)
    encode (array vs) = of_elems (encode_elems vs 0)
    encode _ = err cannot_encode

    pub encode_elems : Values → ℕ → Result Error (EncodedValues Raw)
    encode_elems done i = ok no_elems
    encode_elems (item v vs) i = cons_encoded i (encode v) (encode_elems vs (i + 1))

  abbrev pub cons_decoded : ℕ → Result Error Value → Result Error Values → Result Error Values
  cons_decoded i (err e) rest = err (at_element i e)
  cons_decoded i (ok v) (err e) = err e
  cons_decoded i (ok v) (ok vs) = ok (item v vs)

  abbrev pub to_array : Result Error Values → Result Error Value
  to_array (err e) = err e
  to_array (ok vs) = ok (array vs)

  abbrev pub decode_kind : String → Raw → Result Error Value → Result Error Value
  decode_kind k raw elems = elim (scalar_type k) [
    | some g ↦ j.unmarshal g raw
    | none ↦ if k == kind_array then elems else err (unknown_kind k)
  ]

  unfoldable mutual
    pub decode : EncodedValue Raw → Result Error Value
    decode (encoded k raw vs) = decode_kind k raw (to_array (decode_elems vs 0))

    pub decode_elems : EncodedValues Raw → ℕ → Result Error Values
    decode_elems no_elems i = ok done
    decode_elems (elem v vs) i = cons_decoded i (decode v) (decode_elems vs (i + 1))
