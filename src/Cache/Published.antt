-- ===== src/Cache/Published.antt =====
-- The values that the subscriptions' pump of internal/opcua/subscription.go puts into the store of
-- internal/store, after `NormalizeReadValue` of internal/opcua/value_convert.go.
use opcua_mcp.Prelude.{String, none, ◌≡◌}
use opcua_mcp.Prelude.Result.{ok}
use opcua_mcp.Store.Types.{ValueEntry, EncodedValue}
use opcua_mcp.Store.Encoding.{encode}
use opcua_mcp.Store.Bucket.{put}
use opcua_mcp.Store.Ops.{Deps, bucket_values, to_stored}
use opcua_mcp.Cache.{Backend}

module _ {Db Raw C : Type 0} (deps : Deps Db Raw) (rest : Backend (Db × C)) where
  -- The transaction of an encoded entry does not fail, in any state of the database.
  abbrev pub Commits : String → ValueEntry → Type 0
  Commits n e =
      (v : EncodedValue Raw) (d : Db)
      → encode deps.scalars e.value ≡ ok v
      → (put deps.bolt deps.values bucket_values n (to_stored deps e v) d).0 ≡ none
