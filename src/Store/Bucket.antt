-- ===== src/Store/Bucket.antt =====
-- `get`, `put` and `delete` of internal/store/store.go, on one bucket.
pub mod Laws
use opcua_mcp.Prelude.{String, Bool, true, false, Option, none, some, if◌then◌else◌}
use opcua_mcp.Prelude.Text.{is_empty}
use opcua_mcp.Prelude.Result.{Result, ok, err, ◌>>=◌}
use opcua_mcp.Store.Types.{Error, empty_key}
use mathlib.Core.List.{List}

-- bbolt: a transaction that reads a key of a bucket, that writes one, that deletes one, and the
-- entries of a bucket. `Raw` are the bytes of a value.
pub record Bolt (Db Raw : Type 0) : Type 0 where
  pub get_key : String → String → Db → Result Error (Option Raw)
  pub put_key : String → String → Raw → Db → Option Error × Db
  pub delete_key : String → String → Db → Option Error × Db
  pub for_each : String → Db → Result Error (List (String × Raw))

-- encoding/json at one type of entries.
pub record Codec (A Raw : Type 0) : Type 0 where
  pub marshal : A → Result Error Raw
  pub unmarshal : Raw → Result Error A

module _ {Db Raw A : Type 0} (bolt : Bolt Db Raw) (codec : Codec A Raw) where
  abbrev pub read : Option Raw → Result Error (Option A)
  read none = ok none
  read (some raw) = do a ← codec.unmarshal raw; ok (some a)

  -- `none` is the missing key.
  unfoldable pub get : String → String → Db → Result Error (Option A)
  get bucket key d =
      if is_empty key then err empty_key else (do raw ← bolt.get_key bucket key d; read raw)

  abbrev pub write : String → String → Result Error Raw → Db → Option Error × Db
  write bucket key (err e) d = (some e, d)
  write bucket key (ok raw) d = bolt.put_key bucket key raw d

  unfoldable pub put : String → String → A → Db → Option Error × Db
  put bucket key entry d =
      if is_empty key then (some empty_key, d) else write bucket key (codec.marshal entry) d

unfoldable pub delete : {Db Raw : Type 0} → Bolt Db Raw → String → String → Db → Option Error × Db
delete bolt bucket key d =
    if is_empty key then (some empty_key, d) else bolt.delete_key bucket key d
