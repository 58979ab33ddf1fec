-- ===== src/Store/Ops.antt =====
-- The methods of internal/store/store.go. A context is its `ctx.Err()`.
pub mod Laws
use opcua_mcp.Prelude.{String, List, [], ◌∷◌, Option, none, some}
use opcua_mcp.Prelude.Result.{Result, ok, err, ◌>>=◌}
use opcua_mcp.Value.{Value}
use opcua_mcp.Store.Types.{
  Error, ValueEntry, TypeInfoEntry, BrowseEntry, SubscriptionIntent, StoredValueEntry, EncodedValue,
}
use opcua_mcp.Store.Encoding.{Json, encode, decode}
use opcua_mcp.Store.Bucket.{Bolt, Codec, get, put, delete}

abbrev pub bucket_values : String
bucket_values = "values"

abbrev pub bucket_type_info : String
bucket_type_info = "typeinfo"

abbrev pub bucket_browse : String
bucket_browse = "browse"

abbrev pub bucket_subscriptions : String
bucket_subscriptions = "subscriptions"

-- What the store calls.
pub record Deps (Db Raw : Type 0) : Type 0 where
  pub bolt : Bolt Db Raw
  pub scalars : Json Raw
  pub values : Codec (StoredValueEntry Raw) Raw
  pub types : Codec TypeInfoEntry Raw
  pub browses : Codec BrowseEntry Raw
  pub intents : Codec SubscriptionIntent Raw

abbrev pub checked : {A : Type 0} → Option Error → Result Error A → Result Error A
checked none m = m
checked (some e) m = err e

abbrev pub checked_write : {Db : Type 0} → Option Error → Db → Option Error × Db → Option Error × Db
checked_write none d m = m
checked_write (some e) d m = (some e, d)

module _ {Db Raw : Type 0} (deps : Deps Db Raw) where
  open deps use {bolt, scalars, values, types, browses, intents}

  abbrev pub to_stored : ValueEntry → EncodedValue Raw → StoredValueEntry Raw
  to_stored entry v = record {
    value = v;
    status = entry.status;
    source_timestamp = entry.source_timestamp;
    server_timestamp = entry.server_timestamp;
    received_at = entry.received_at;
    source = entry.source;
  }

  abbrev pub of_stored : StoredValueEntry Raw → Value → ValueEntry
  of_stored stored v = record {
    value = v;
    status = stored.status;
    source_timestamp = stored.source_timestamp;
    server_timestamp = stored.server_timestamp;
    received_at = stored.received_at;
    source = stored.source;
  }

  abbrev pub decode_stored : Option (StoredValueEntry Raw) → Result Error (Option ValueEntry)
  decode_stored none = ok none
  decode_stored (some stored) = do v ← decode scalars stored.value; ok (some (of_stored stored v))

  unfoldable pub get_value : Option Error → String → Db → Result Error (Option ValueEntry)
  get_value ctx node_id d =
      checked ctx (do stored ← get bolt values bucket_values node_id d; decode_stored stored)

  abbrev pub put_encoded :
      String → ValueEntry → Result Error (EncodedValue Raw) → Db → Option Error × Db
  put_encoded node_id entry (err e) d = (some e, d)
  put_encoded node_id entry (ok v) d = put bolt values bucket_values node_id (to_stored entry v) d

  unfoldable pub put_value : Option Error → String → ValueEntry → Db → Option Error × Db
  put_value ctx node_id entry d =
      checked_write ctx d (put_encoded node_id entry (encode scalars entry.value) d)

  unfoldable pub delete_value : Option Error → String → Db → Option Error × Db
  delete_value ctx node_id d = checked_write ctx d (delete bolt bucket_values node_id d)

  unfoldable pub get_type_info : Option Error → String → Db → Result Error (Option TypeInfoEntry)
  get_type_info ctx node_id d = checked ctx (get bolt types bucket_type_info node_id d)

  unfoldable pub put_type_info : Option Error → String → TypeInfoEntry → Db → Option Error × Db
  put_type_info ctx node_id entry d =
      checked_write ctx d (put bolt types bucket_type_info node_id entry d)

  unfoldable pub get_browse : Option Error → String → Db → Result Error (Option BrowseEntry)
  get_browse ctx parent d = checked ctx (get bolt browses bucket_browse parent d)

  unfoldable pub put_browse : Option Error → String → BrowseEntry → Db → Option Error × Db
  put_browse ctx parent entry d =
      checked_write ctx d (put bolt browses bucket_browse parent entry d)

  unfoldable pub get_subscription :
      Option Error → String → Db → Result Error (Option SubscriptionIntent)
  get_subscription ctx id d = checked ctx (get bolt intents bucket_subscriptions id d)

  unfoldable pub put_subscription :
      Option Error → String → SubscriptionIntent → Db → Option Error × Db
  put_subscription ctx id intent d =
      checked_write ctx d (put bolt intents bucket_subscriptions id intent d)

  unfoldable pub delete_subscription : Option Error → String → Db → Option Error × Db
  delete_subscription ctx id d = checked_write ctx d (delete bolt bucket_subscriptions id d)

  -- The `ForEach` of `ListSubscriptions`: the first entry that does not decode ends it.
  unfoldable pub decode_intents : List (String × Raw) → Result Error (List SubscriptionIntent)
  decode_intents [] = ok []
  decode_intents ((k, raw) ∷ es) =
      let rest = decode_intents es in
      do intent ← intents.unmarshal raw; more ← rest; ok (intent ∷ more)

  unfoldable pub list_subscriptions : Option Error → Db → Result Error (List SubscriptionIntent)
  unfolding decode_intents
  list_subscriptions ctx d =
      checked ctx (do es ← bolt.for_each bucket_subscriptions d; decode_intents es)
