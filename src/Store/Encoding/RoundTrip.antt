-- ===== src/Store/Encoding/RoundTrip.antt =====
-- What `encode` accepts comes back from `decode` with its exact type.
use opcua_mcp.Prelude.{String, subst, ◌∙◌, ℕ, ◌+◌, ◌≡◌, refl, some, some_inj, arith}
use opcua_mcp.Prelude.Result.{Result, ok, err, >>=-eq-ok, ok_inj}
use opcua_mcp.Value.{
  GoType, go_bool, go_int8, go_int16, go_int32, go_int64, go_uint8, go_uint16, go_uint32, go_uint64,
  go_float32, go_float64, go_string, go_time, go_guid, go_bytes, Value, Values, bool, int8, int16,
  int32, int64, uint8, uint16, uint32, uint64, float32, float64, string, time, bytes, array, done,
  item, type_of,
}
use opcua_mcp.Store.Types.{Error, EncodedValue, EncodedValues, encoded, no_elems, elem}
use opcua_mcp.Store.Encoding.{
  Json, kind_of, kind_array, decode_kind, scalar_type, encode_scalar, cons_encoded, of_elems,
  encode, encode_elems, decode, decode_elems,
}

scalar_type-kind_of : (g : GoType) {k : String} → kind_of g ≡ some k → scalar_type k ≡ some g
unfolding scalar_type
scalar_type-kind_of go_bool h = subst (λ s. scalar_type s ≡ some go_bool) (some_inj h) refl
scalar_type-kind_of go_int8 h = subst (λ s. scalar_type s ≡ some go_int8) (some_inj h) refl
scalar_type-kind_of go_int16 h = subst (λ s. scalar_type s ≡ some go_int16) (some_inj h) refl
scalar_type-kind_of go_int32 h = subst (λ s. scalar_type s ≡ some go_int32) (some_inj h) refl
scalar_type-kind_of go_int64 h = subst (λ s. scalar_type s ≡ some go_int64) (some_inj h) refl
scalar_type-kind_of go_uint8 h = subst (λ s. scalar_type s ≡ some go_uint8) (some_inj h) refl
scalar_type-kind_of go_uint16 h = subst (λ s. scalar_type s ≡ some go_uint16) (some_inj h) refl
scalar_type-kind_of go_uint32 h = subst (λ s. scalar_type s ≡ some go_uint32) (some_inj h) refl
scalar_type-kind_of go_uint64 h = subst (λ s. scalar_type s ≡ some go_uint64) (some_inj h) refl
scalar_type-kind_of go_float32 h = subst (λ s. scalar_type s ≡ some go_float32) (some_inj h) refl
scalar_type-kind_of go_float64 h = subst (λ s. scalar_type s ≡ some go_float64) (some_inj h) refl
scalar_type-kind_of go_string h = subst (λ s. scalar_type s ≡ some go_string) (some_inj h) refl
scalar_type-kind_of go_time h = subst (λ s. scalar_type s ≡ some go_time) (some_inj h) refl
scalar_type-kind_of go_bytes h = subst (λ s. scalar_type s ≡ some go_bytes) (some_inj h) refl
scalar_type-kind_of go_guid h = cc

cons_encoded-eq-ok :
    {Raw : Type 0} (j : Json Raw) (i : ℕ) (m : Result Error (EncodedValue Raw))
    (rest : Result Error (EncodedValues Raw)) {es : EncodedValues Raw}
    → cons_encoded j i m rest ≡ ok es
    → (e : EncodedValue Raw) × (ds : EncodedValues Raw) × (m ≡ ok e)
      × (rest ≡ ok ds)
      × (es ≡ elem e ds)
cons_encoded-eq-ok j i (err x) rest h = cc
cons_encoded-eq-ok j i (ok e) (err x) h = cc
cons_encoded-eq-ok j i (ok e) (ok ds) h = (e, ds, refl, refl, ground arith)

of_elems-eq-ok :
    {Raw : Type 0} (j : Json Raw) (m : Result Error (EncodedValues Raw)) {e : EncodedValue Raw}
    → of_elems j m ≡ ok e
    → (es : EncodedValues Raw) × (m ≡ ok es) × (e ≡ encoded kind_array j.no_raw es)
of_elems-eq-ok j (err x) h = cc
of_elems-eq-ok j (ok es) h = (es, refl, ground arith)

module _ {Raw : Type 0} (j : Json Raw) where
  decode_kind-scalar :
      (k : String) (raw : Raw) (m : Result Error Value) {g : GoType}
      → scalar_type k ≡ some g
      → decode_kind j k raw m ≡ j.unmarshal g raw
  decode_kind-scalar k raw m s = rw (s, decode_kind)

  decode_kind-array : (m : Result Error Value) → decode_kind j kind_array j.no_raw m ≡ m
  unfolding scalar_type
  decode_kind-array m = refl

module _ {Raw : Type 0} (j : Json Raw)
    (json_law : (v : Value) (g : GoType) (raw : Raw)
      → type_of v ≡ some g
      → j.marshal v ≡ ok raw
      → j.unmarshal g raw ≡ ok v) where
  scalar-decode :
      (v : Value) (g : GoType) {k : String} (e : EncodedValue Raw)
      → type_of v ≡ some g
      → kind_of g ≡ some k
      → encode_scalar j k v ≡ ok e
      → decode j e ≡ ok v
  unfolding encode_scalar decode
  scalar-decode v g {k} e t kind h =
      let (raw, p, q) = >>=-eq-ok (j.marshal v) _ h in
      let s = scalar_type-kind_of g kind in
      let r : e ≡ encoded k raw no_elems = ground arith in
      rw r (decode_kind-scalar j k raw _ s ∙ json_law v g raw t p)

  mutual
    unfolding encode decode

    value_back : (v : Value) (e : EncodedValue Raw) → encode j v ≡ ok e → decode j e ≡ ok v
    value_back (bool b) e h = scalar-decode (bool b) go_bool e refl refl h
    value_back (int8 z) e h = scalar-decode (int8 z) go_int8 e refl refl h
    value_back (int16 z) e h = scalar-decode (int16 z) go_int16 e refl refl h
    value_back (int32 z) e h = scalar-decode (int32 z) go_int32 e refl refl h
    value_back (int64 z) e h = scalar-decode (int64 z) go_int64 e refl refl h
    value_back (uint8 n) e h = scalar-decode (uint8 n) go_uint8 e refl refl h
    value_back (uint16 n) e h = scalar-decode (uint16 n) go_uint16 e refl refl h
    value_back (uint32 n) e h = scalar-decode (uint32 n) go_uint32 e refl refl h
    value_back (uint64 n) e h = scalar-decode (uint64 n) go_uint64 e refl refl h
    value_back (float32 b) e h = scalar-decode (float32 b) go_float32 e refl refl h
    value_back (float64 b) e h = scalar-decode (float64 b) go_float64 e refl refl h
    value_back (string s) e h = scalar-decode (string s) go_string e refl refl h
    value_back (time t) e h = scalar-decode (time t) go_time e refl refl h
    value_back (bytes b) e h = scalar-decode (bytes b) go_bytes e refl refl h
    value_back (array vs) e h =
        let (es, p, q) = of_elems-eq-ok j (encode_elems j vs 0) h in
        rw q (rw (elems_back vs 0 es p) (decode_kind-array j _))
    value_back _ e h = cc

    elems_back :
        (vs : Values) (i : ℕ) (es : EncodedValues Raw)
        → encode_elems j vs i ≡ ok es
        → decode_elems j es i ≡ ok vs
    elems_back done i es h = rw (← ok_inj h) refl
    elems_back (item v vs) i es h =
        let (e, ds, p, q, r) = cons_encoded-eq-ok j i (encode j v) (encode_elems j vs (i + 1)) h in
        rw r (rw (value_back v e p, elems_back vs (i + 1) ds q) refl)

  -- What `encode` accepts, `decode` gives back: the same value, of the same Go type, arrays of any
  -- nesting included. (The hypothesis: encoding/json gives back each scalar that it marshals.)
  pub decode-encode : (v : Value) (e : EncodedValue Raw) → encode j v ≡ ok e → decode j e ≡ ok v
  decode-encode v e h = value_back v e h
