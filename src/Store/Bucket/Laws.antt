-- ===== src/Store/Bucket/Laws.antt =====
-- A bucket is a map, given that bbolt is one and that encoding/json gives back what it marshals.
use opcua_mcp.Prelude.{
  String, false, ◌&&◌, ◌≡◌, refl, Option, none, some, arith, ◌==◌, string_eq, ==_refl,
  if◌then◌else◌, Bool-cases, ◌⊎◌, inl, inr, ◌∙◌,
}
use opcua_mcp.Prelude.Text.{is_empty}
use opcua_mcp.Prelude.Result.{ok, Result-cases}
use opcua_mcp.Store.Types.{Error}
use opcua_mcp.Store.Bucket.{Bolt, Codec, get, put, delete}

-- What the store relies on: a committed transaction is seen by later ones, at its own key and at no
-- other, and a failed one is rolled back.
pub record BoltLaws {Db Raw : Type 0} (bolt : Bolt Db Raw) : Type 0 where
  pub get_put :
      (b k : String) (v : Raw) (d d' : Db) (b' k' : String)
      → bolt.put_key b k v d ≡ (none, d')
      → bolt.get_key b' k' d'
        ≡ (if (b == b') && (k == k') then ok (some v) else bolt.get_key b' k' d)
  pub get_delete :
      (b k : String) (d d' : Db) (b' k' : String)
      → bolt.delete_key b k d ≡ (none, d')
      → bolt.get_key b' k' d' ≡ (if (b == b') && (k == k') then ok none else bolt.get_key b' k' d)
  pub put_failed :
      (b k : String) (v : Raw) (d d' : Db) (e : Error) (b' k' : String)
      → bolt.put_key b k v d ≡ (some e, d')
      → bolt.get_key b' k' d' ≡ bolt.get_key b' k' d

abbrev pub JsonLaw : {A Raw : Type 0} → Codec A Raw → Type 0
JsonLaw {A} {Raw} codec =
    (a : A) (raw : Raw) → codec.marshal a ≡ ok raw → codec.unmarshal raw ≡ ok a

module _ {Db Raw A : Type 0} (bolt : Bolt Db Raw) (codec : Codec A Raw) where
  -- A put that succeeds has written the entry's text.
  put-eq-none :
      (b k : String) (a : A) (d d' : Db)
      → put bolt codec b k a d ≡ (none, d')
      → (raw : Raw) × (is_empty k ≡ false)
        × (codec.marshal a ≡ ok raw)
        × (bolt.put_key b k raw d ≡ (none, d'))
  unfolding put
  put-eq-none b k a d d' h = elim (Bool-cases (is_empty k)) [
    | inl e ↦ absurd (let h' = rw (e, put) at h in cc)
    | inr e ↦ elim (Result-cases (codec.marshal a)) [
      | inl (x, p) ↦ absurd (ground arith)
      | inr (raw, p) ↦ (raw, e, p, ground arith)
    ]
  ]

  -- One that fails has left the database alone, or is a transaction that failed.
  put-eq-some :
      (b k : String) (a : A) (d d' : Db) (x : Error)
      → put bolt codec b k a d ≡ (some x, d')
      → (d' ≡ d) ⊎ ((raw : Raw) × (bolt.put_key b k raw d ≡ (some x, d')))
  unfolding put
  put-eq-some b k a d d' x h = elim (Bool-cases (is_empty k)) [
    | inl e ↦ inl (ground arith)
    | inr e ↦ elim (Result-cases (codec.marshal a)) [
      | inl (y, p) ↦ inl (ground arith)
      | inr (raw, p) ↦ inr (raw, ground arith)
    ]
  ]

  get_same_key :
      (b k : String) (d d' : Db)
      → bolt.get_key b k d' ≡ bolt.get_key b k d
      → get bolt codec b k d' ≡ get bolt codec b k d
  unfolding get
  get_same_key b k d d' e = rw e refl

module _ {Db Raw A : Type 0} (bolt : Bolt Db Raw) (laws : BoltLaws bolt) (codec : Codec A Raw)
    (json : JsonLaw codec) where
  -- An entry that was stored is read back as it was.
  pub get-put :
      (b k : String) (a : A) (d d' : Db)
      → put bolt codec b k a d ≡ (none, d')
      → get bolt codec b k d' ≡ ok (some a)
  unfolding get
  get-put b k a d d' h =
      let (raw, e, m, w) = put-eq-none bolt codec b k a d d' h in
      ground (arith, laws.get_put b k raw d d' b k w, ==_refl b, ==_refl k, json a raw m)

  -- An entry that was deleted is not found.
  pub get-delete :
      (b k : String) (d d' : Db) → delete bolt b k d ≡ (none, d') → get bolt codec b k d' ≡ ok none
  unfolding get delete
  get-delete b k d d' h = ground (arith, laws.get_delete b k d d' b k, ==_refl b, ==_refl k)

module _ {Db Raw A B : Type 0} (bolt : Bolt Db Raw) (laws : BoltLaws bolt) (codec : Codec A Raw)
    (other : Codec B Raw) where
  -- Storing an entry, or failing to, changes no other entry, of this bucket or another.
  pub get-put_other :
      (b k b' k' : String) (a : A) (d : Db)
      → ((b == b') && (k == k')) ≡ false
      → get bolt other b' k' (put bolt codec b k a d).1 ≡ get bolt other b' k' d
  get-put_other b k b' k' a d ne =
      get_same_key bolt other b' k' d (put bolt codec b k a d).1
        (key_kept (put bolt codec b k a d).0 refl)
    where
      key_kept :
          (o : Option Error)
          → (put bolt codec b k a d).0 ≡ o
          → bolt.get_key b' k' (put bolt codec b k a d).1 ≡ bolt.get_key b' k' d
      key_kept none e =
          let d' = (put bolt codec b k a d).1 in
          let (raw, _, _, w) = put-eq-none bolt codec b k a d d' (λ i. (e i, d')) in
          laws.get_put b k raw d d' b' k' w ∙ rw ne refl
      key_kept (some x) e =
          let d' = (put bolt codec b k a d).1 in
          elim (put-eq-some bolt codec b k a d d' x (λ i. (e i, d'))) [
            | inl same ↦ rw same refl
            | inr (raw, w) ↦ laws.put_failed b k raw d d' x b' k' w
          ]
