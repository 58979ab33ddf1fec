-- ===== src/Normalize.antt =====
-- `NormalizeReadValue` of internal/opcua/value_convert.go, and that internal/store/value_encoding.go
-- accepts what it gives.
use opcua_mcp.Prelude.{
  ℕ, ◌+◌, ◌%◌, ◌^◌, ◌<◌, String, Bool, true, false, List, Option, none, some, ltb, nat_beq,
  if◌then◌else◌, ◌&&◌, ◌≡◌, refl, arith, Bool-cases, inl, inr,
}
use opcua_mcp.Prelude.Int.{ℤ, pos, neg, lez}
use opcua_mcp.Prelude.Result.{Result, ok, err, is_ok, Result-cases}
use opcua_mcp.Value.{
  Value, Values, nil, bool, int8, int16, int32, int64, uint8, uint16, uint32, uint64, float64,
  string, time, bytes, array, done, item,
}
use opcua_mcp.Store.Types.{Error, EncodedValue, EncodedValues}
use opcua_mcp.Store.Encoding.{Json, encode_scalar, encode, encode_elems, of_elems, cons_encoded}

-- The scalars that are left as they are.
pub data Plain : Type 0 where
  plain_bool : Bool → Plain
  plain_int8 plain_int16 plain_int32 plain_int64 : ℤ → Plain
  plain_uint8 plain_uint16 plain_uint32 plain_uint64 : ℕ → Plain
  plain_string : String → Plain
  plain_time : ℤ → Plain
  plain_bytes : List ℕ → Plain

abbrev pub to_value : Plain → Value
to_value (plain_bool b) = bool b
to_value (plain_int8 z) = int8 z
to_value (plain_int16 z) = int16 z
to_value (plain_int32 z) = int32 z
to_value (plain_int64 z) = int64 z
to_value (plain_uint8 n) = uint8 n
to_value (plain_uint16 n) = uint16 n
to_value (plain_uint32 n) = uint32 n
to_value (plain_uint64 n) = uint64 n
to_value (plain_string s) = string s
to_value (plain_time t) = time t
to_value (plain_bytes b) = bytes b

-- A value that gopcua has decoded: the cases of the type switch, floats by their bits, the wrapper
-- types (NodeID, ExpandedNodeID, GUID, QualifiedName, LocalizedText, StatusCode) by the text that
-- stands for them, an extension object by its value or, if it has none, by the description of its
-- type, and a slice of any type but []byte.
mutual
  pub data Decoded : Type 0 where
    no_value : Decoded
    plain : Plain → Decoded
    decoded_float32 decoded_float64 : ℕ → Decoded
    wrapper : String → Decoded
    no_extension : Decoded
    extension : Option Value → String → Decoded
    decoded_slice : DecodedList → Decoded

  pub data DecodedList : Type 0 where
    no_more : DecodedList
    more : Decoded → DecodedList → DecodedList

-- The bits of the infinities of float64.
abbrev pub positive_infinity : ℕ
positive_infinity = 0x7FF0000000000000

abbrev pub negative_infinity : ℕ
negative_infinity = 0xFFF0000000000000

-- A NaN has a larger magnitude than the infinities.
abbrev pub is_nan : ℕ → Bool
is_nan b = ltb positive_infinity (b % 2 ^ 63)

unfoldable pub normalize_float : ℕ → Value
normalize_float b =
    if is_nan b
    then string "NaN"
    else if nat_beq b positive_infinity
    then string "+Inf"
    else if nat_beq b negative_infinity
    then string "-Inf"
    else float64 b

abbrev pub normalize_extension_object : Option Value → String → Value
normalize_extension_object none description = string description
normalize_extension_object (some v) description = v

-- `widen` is float64(x) of a float32.
unfoldable mutual
  unfolding normalize_float

  pub normalize_read_value : (ℕ → ℕ) → Decoded → Value
  normalize_read_value widen no_value = nil
  normalize_read_value widen (plain p) = to_value p
  normalize_read_value widen (decoded_float32 b) = normalize_float (widen b)
  normalize_read_value widen (decoded_float64 b) = normalize_float b
  normalize_read_value widen (wrapper s) = string s
  normalize_read_value widen no_extension = nil
  normalize_read_value widen (extension v description) = normalize_extension_object v description
  normalize_read_value widen (decoded_slice ds) = array (normalize_slice widen ds)

  pub normalize_slice : (ℕ → ℕ) → DecodedList → Values
  normalize_slice widen no_more = done
  normalize_slice widen (more d ds) = item (normalize_read_value widen d) (normalize_slice widen ds)

-- A float64 that encoding/json marshals.
abbrev pub is_finite : ℕ → Bool
is_finite b = ltb (b % 2 ^ 63) positive_infinity

-- The nanoseconds of the years 0 to 9999: encoding/json refuses any other time.
abbrev pub in_json_years : ℤ → Bool
in_json_years t = lez (neg 62167219200000000000) t && lez t (pos 253402300799999999999)

abbrev pub is_marshalled : Plain → Bool
is_marshalled (plain_time t) = in_json_years t
is_marshalled _ = true

-- The value is there: no nil and no decoded extension object, in any element. A float64 has 64 bits,
-- and a time is of the years 0 to 9999.
unfoldable mutual
  pub HasData : Decoded → Type 0
  HasData no_value = true ≡ false
  HasData (plain p) = is_marshalled p ≡ true
  HasData no_extension = true ≡ false
  HasData (extension (some v) description) = true ≡ false
  HasData (decoded_float64 b) = b < 2 ^ 64
  HasData (decoded_slice ds) = AllHaveData ds
  HasData _ = Unit

  pub AllHaveData : DecodedList → Type 0
  AllHaveData no_more = Unit
  AllHaveData (more d ds) = HasData d × AllHaveData ds

-- encoding/json marshals the scalars, of the times those of the years 0 to 9999, and the finite
-- floats.
pub record Marshals {Raw : Type 0} (j : Json Raw) : Type 0 where
  pub scalar : (p : Plain) → is_marshalled p ≡ true → is_ok (j.marshal (to_value p)) ≡ true
  pub finite : (b : ℕ) → is_finite b ≡ true → is_ok (j.marshal (float64 b)) ≡ true

contradiction : {A : Type 0} → ◌≡◌ {A = Bool} true false → A
contradiction h = cc

module _ {Raw : Type 0} (j : Json Raw) (law : Marshals j) where
  encode_scalar-ok :
      (kind : String) (v : Value)
      → is_ok (j.marshal v) ≡ true
      → is_ok (encode_scalar j kind v) ≡ true
  unfolding encode_scalar
  encode_scalar-ok kind v h = elim (Result-cases (j.marshal v)) [
    | inr (raw, p) ↦ rw p refl
    | inl (e, p) ↦ ground (arith, rw p at h)
  ]

  encode-plain : (p : Plain) → is_marshalled p ≡ true → is_ok (encode j (to_value p)) ≡ true
  unfolding encode
  encode-plain (plain_bool b) h = encode_scalar-ok "bool" (bool b) (law.scalar (plain_bool b) h)
  encode-plain (plain_int8 z) h = encode_scalar-ok "int8" (int8 z) (law.scalar (plain_int8 z) h)
  encode-plain (plain_int16 z) h = encode_scalar-ok "int16" (int16 z) (law.scalar (plain_int16 z) h)
  encode-plain (plain_int32 z) h = encode_scalar-ok "int32" (int32 z) (law.scalar (plain_int32 z) h)
  encode-plain (plain_int64 z) h = encode_scalar-ok "int64" (int64 z) (law.scalar (plain_int64 z) h)
  encode-plain (plain_uint8 n) h = encode_scalar-ok "uint8" (uint8 n) (law.scalar (plain_uint8 n) h)
  encode-plain (plain_uint16 n) h =
      encode_scalar-ok "uint16" (uint16 n) (law.scalar (plain_uint16 n) h)
  encode-plain (plain_uint32 n) h =
      encode_scalar-ok "uint32" (uint32 n) (law.scalar (plain_uint32 n) h)
  encode-plain (plain_uint64 n) h =
      encode_scalar-ok "uint64" (uint64 n) (law.scalar (plain_uint64 n) h)
  encode-plain (plain_string s) h =
      encode_scalar-ok "string" (string s) (law.scalar (plain_string s) h)
  encode-plain (plain_time t) h = encode_scalar-ok "time" (time t) (law.scalar (plain_time t) h)
  encode-plain (plain_bytes b) h = encode_scalar-ok "bytes" (bytes b) (law.scalar (plain_bytes b) h)

  encode-float : (b : ℕ) → b < 2 ^ 64 → is_ok (encode j (normalize_float b)) ≡ true
  unfolding normalize_float encode
  encode-float b h = elim (Bool-cases (is_nan b)) [
    | inl nan ↦ rw (normalize_float, nan) (encode-plain (plain_string "NaN") refl)
    | inr number ↦ elim (Bool-cases (nat_beq b positive_infinity)) [
      | inl up ↦ rw (normalize_float, number, up) (encode-plain (plain_string "+Inf") refl)
      | inr not_up ↦ elim (Bool-cases (nat_beq b negative_infinity)) [
        | inl down ↦
            rw (normalize_float, number, not_up, down) (encode-plain (plain_string "-Inf") refl)
        | inr not_down ↦
            rw (normalize_float, number, not_up, not_down)
              (encode_scalar-ok "float64" (float64 b)
                (law.finite b (ground (arith, h, number, not_up, not_down))))
      ]
    ]
  ]

  of_elems-ok :
      (m : Result Error (EncodedValues Raw)) → is_ok m ≡ true → is_ok (of_elems j m) ≡ true
  of_elems-ok (ok vs) h = refl
  of_elems-ok (err e) h = ground (arith, h)

  cons_encoded-ok :
      (i : ℕ) (m : Result Error (EncodedValue Raw)) (ms : Result Error (EncodedValues Raw))
      → is_ok m ≡ true
      → is_ok ms ≡ true
      → is_ok (cons_encoded j i m ms) ≡ true
  cons_encoded-ok i (ok v) (ok vs) g h = refl
  cons_encoded-ok i (ok v) (err e) g h = ground (arith, h)
  cons_encoded-ok i (err e) ms g h = ground (arith, g)

  mutual
    unfolding normalize_read_value normalize_slice encode encode_elems HasData AllHaveData

    encode-decoded :
        (widen : ℕ → ℕ)
        → ((b : ℕ) → widen b < 2 ^ 64)
        → (d : Decoded) → HasData d
        → is_ok (encode j (normalize_read_value widen d)) ≡ true
    encode-decoded widen fits no_value h = contradiction h
    encode-decoded widen fits (plain p) h = encode-plain p h
    encode-decoded widen fits (decoded_float32 b) h = encode-float (widen b) (fits b)
    encode-decoded widen fits (decoded_float64 b) h = encode-float b h
    encode-decoded widen fits (wrapper s) h = encode-plain (plain_string s) refl
    encode-decoded widen fits no_extension h = contradiction h
    encode-decoded widen fits (extension (some v) description) h = contradiction h
    encode-decoded widen fits (extension none description) h =
        encode-plain (plain_string description) refl
    encode-decoded widen fits (decoded_slice ds) h =
        of_elems-ok (encode_elems j (normalize_slice widen ds) 0)
          (encode_elems-decoded widen fits ds 0 h)

    encode_elems-decoded :
        (widen : ℕ → ℕ)
        → ((b : ℕ) → widen b < 2 ^ 64)
        → (ds : DecodedList) (i : ℕ) → AllHaveData ds
        → is_ok (encode_elems j (normalize_slice widen ds) i) ≡ true
    encode_elems-decoded widen fits no_more i h = refl
    encode_elems-decoded widen fits (more d ds) i (p, h) =
        cons_encoded-ok i (encode j (normalize_read_value widen d))
          (encode_elems j (normalize_slice widen ds) (i + 1)) (encode-decoded widen fits d p)
          (encode_elems-decoded widen fits ds (i + 1) h)
