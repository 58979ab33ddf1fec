-- ===== src/Store/Ops/Laws.antt =====
-- The store as a client sees it: four maps that do not meet, and values that keep their Go types.
use opcua_mcp.Prelude.{
  String, false, ◌≡◌, ◌≢◌, refl, Option, none, some, arith, ◌==◌, string_eq, ==_of_ne, ◌&&◌, inl,
  inr,
}
use opcua_mcp.Prelude.Result.{Result, ok, err, Result-cases}
use opcua_mcp.Value.{Value, type_of, GoType}
use opcua_mcp.Store.Types.{Error, ValueEntry, EncodedValue}
use opcua_mcp.Store.Encoding.{Json, encode}
use opcua_mcp.Store.Encoding.RoundTrip.{decode-encode}
use opcua_mcp.Store.Bucket.{Codec, get, put}
use opcua_mcp.Store.Bucket.Laws.{BoltLaws, JsonLaw, get-put, get-put_other}
use opcua_mcp.Store.Ops.{
  Deps, bucket_values, bucket_type_info, bucket_browse, bucket_subscriptions, to_stored,
  put_encoded, get_value, put_value, get_type_info, get_browse, get_subscription,
}

abbrev pub ScalarLaw : {Raw : Type 0} → Json Raw → Type 0
ScalarLaw {Raw} j =
    (v : Value) (g : GoType) (raw : Raw)
    → type_of v ≡ some g
    → j.marshal v ≡ ok raw
    → j.unmarshal g raw ≡ ok v

-- What the store relies on, of bbolt and of encoding/json.
pub record DepsLaws {Db Raw : Type 0} (deps : Deps Db Raw) : Type 0 where
  pub bolt : BoltLaws deps.bolt
  pub scalars : ScalarLaw deps.scalars
  pub values : JsonLaw deps.values

module _ {Db Raw : Type 0} (deps : Deps Db Raw) (laws : DepsLaws deps) where
  put_value-eq-none :
      (node_id : String) (entry : ValueEntry) (d d' : Db)
      → put_value deps none node_id entry d ≡ (none, d')
      → (v : EncodedValue Raw) × (encode deps.scalars entry.value ≡ ok v)
        × (put deps.bolt deps.values bucket_values node_id (to_stored deps entry v) d ≡ (none, d'))
  unfolding put_value
  put_value-eq-none node_id entry d d' h = elim (Result-cases (encode deps.scalars entry.value)) [
    | inl (e, p) ↦ absurd (ground arith)
    | inr (v, p) ↦ (v, p, ground arith)
  ]

  -- A value that was stored is read back with its exact Go type, its status, times and source.
  pub get_value-put_value :
      (node_id : String) (entry : ValueEntry) (d d' : Db)
      → put_value deps none node_id entry d ≡ (none, d')
      → get_value deps none node_id d' ≡ ok (some entry)
  unfolding get_value
  get_value-put_value node_id entry d d' h =
      let (v, p, q) = put_value-eq-none node_id entry d d' h in
      rw
        (get-put deps.bolt laws.bolt deps.values laws.values bucket_values node_id
          (to_stored deps entry v) d d' q)
        (rw (decode-encode deps.scalars laws.scalars entry.value v p) refl)

  put_encoded_other :
      {B : Type 0} (node_id : String) (entry : ValueEntry) (m : Result Error (EncodedValue Raw))
      (d : Db) (codec : Codec B Raw) (bucket key : String)
      → ((bucket_values == bucket) && (node_id == key)) ≡ false
      → get deps.bolt codec bucket key (put_encoded deps node_id entry m d).1
        ≡ get deps.bolt codec bucket key d
  put_encoded_other node_id entry (err e) d codec bucket key ne = refl
  put_encoded_other node_id entry (ok v) d codec bucket key ne =
      get-put_other deps.bolt laws.bolt deps.values codec bucket_values node_id bucket key
        (to_stored deps entry v) d ne

  -- Storing a value, or failing to, changes no value of another node and none of the other entries.
  pub put_value_other :
      (ctx : Option Error) (node_id other : String) (entry : ValueEntry) (d : Db)
      → let d' = (put_value deps ctx node_id entry d).1 in
        (node_id ≢ other → get_value deps none other d' ≡ get_value deps none other d)
        × (get_type_info deps none other d' ≡ get_type_info deps none other d)
        × (get_browse deps none other d' ≡ get_browse deps none other d)
        × (get_subscription deps none other d' ≡ get_subscription deps none other d)
  unfolding get_value get_type_info get_browse get_subscription put_value
  put_value_other (some e) node_id other entry d = (λ ne. refl, refl, refl, refl)
  put_value_other none node_id other entry d =
      let m = encode deps.scalars entry.value in
      (
        λ ne.
            rw
              (put_encoded_other node_id entry m d deps.values bucket_values other
                (==_of_ne node_id other ne))
              refl,
        put_encoded_other node_id entry m d deps.types bucket_type_info other refl,
        put_encoded_other node_id entry m d deps.browses bucket_browse other refl,
        put_encoded_other node_id entry m d deps.intents bucket_subscriptions other refl,
      )
