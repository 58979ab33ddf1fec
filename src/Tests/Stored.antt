-- ===== src/Tests/Stored.antt =====
-- The theorems on the cache over the store.
use opcua_mcp.Prelude.{ℕ, ◌≡◌, refl, true, [], ◌∷◌, none, some}
use opcua_mcp.Prelude.Int.{pos, ◌-ℤ◌}
use opcua_mcp.Prelude.Result.{ok, err}
use opcua_mcp.Value.{int32}
use opcua_mcp.Store.Encoding.{encode}
use opcua_mcp.Store.Bucket.{put, delete}
use opcua_mcp.Store.Ops.{put_value, delete_value}
use opcua_mcp.Cache.{
  Error, Backend, CacheConfig, DataValue, serve, read_live, live_entry, value_entry_to_read_result,
}
use opcua_mcp.Cache.Stored.{over_store, read_live-over_store}
use opcua_mcp.Tests.Store.{Db, deps, deps_laws, empty}

abbrev seven : DataValue
seven = record {
  value = int32 (pos 7);
  status = "OK";
  source_timestamp = pos 40;
  server_timestamp = pos 41;
}

-- A server whose clock stands still.
abbrev pub server : Backend (Db × ℕ)
server = record {
  get_value = λ n w. (ok none, w);
  put_value = λ n e w. w;
  delete_value = λ n w. w;
  get_type_info = λ n w. (ok none, w);
  put_type_info = λ n e w. w;
  get_browse = λ n w. (ok none, w);
  put_browse = λ n e w. w;
  client_read = λ ns w. (ok (seven ∷ []), w);
  client_write = λ n v w. (none, w);
  client_browse = λ n w. (ok [], w);
  client_node_type_info = λ n w. (err (Error.external 1), w);
  record_cache_result = λ h w. w;
  now = λ w. pos 50;
}

abbrev cfg : CacheConfig
cfg = record { enable_cache = true; type_info_ttl = pos 100; browse_ttl = pos 100 }

read_live-over_store_example :
    (serve
      (over_store deps server)
      cfg
      (pos 10)
      "a"
      (read_live (over_store deps server) cfg ("a" ∷ []) (empty, 0)).1).0
    ≡ some (value_entry_to_read_result "a" (live_entry seven (pos 50)) "cache")
unfolding put_value encode put ◌-ℤ◌
read_live-over_store_example =
    read_live-over_store deps server deps_laws cfg "a" seven (pos 10) (empty, 0) (empty, 0) refl
      refl refl refl

deletes : (d : Db) → (delete_value deps none "a" d).0 ≡ none
unfolding delete_value delete
deletes d = refl
