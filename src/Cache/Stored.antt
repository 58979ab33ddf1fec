-- ===== src/Cache/Stored.antt =====
-- The store of internal/store as the `valueTypeBrowseStore` of internal/opcua/caching_client.go.
use opcua_mcp.Prelude.{String, [], ◌∷◌, none, some, ◌≡◌, true, refl, arith, ==_iff, string_eq}
use opcua_mcp.Prelude.Int.{ℤ, lez, ◌-ℤ◌}
use opcua_mcp.Prelude.Result.{ok}
use opcua_mcp.Store.Bucket.{delete}
use opcua_mcp.Store.Bucket.Laws.{get-delete}
use opcua_mcp.Store.Ops.{
  Deps, bucket_values, get_value, put_value, delete_value, get_type_info, put_type_info, get_browse,
  put_browse,
}
use opcua_mcp.Store.Ops.Laws.{DepsLaws, get_value-put_value, put_value_other}
use opcua_mcp.Store.Types.{ValueEntry}
use opcua_mcp.Subscription.Notify.{KeepsValues}
use opcua_mcp.Cache.{
  Backend, CacheConfig, DataValue, read_live, serve, live_entry, value_entry_to_read_result,
}
use opcua_mcp.Cache.Read.Fresh.{CacheLaws, read_live-serve}

module _ {Db Raw C : Type 0} (deps : Deps Db Raw) (rest : Backend (Db × C)) where
  -- The errors of the writes are only logged.
  abbrev pub over_store : Backend (Db × C)
  over_store = record rest {
    get_value = λ n w. (get_value deps none n w.0, w);
    put_value = λ n e w. ((put_value deps none n e w.0).1, w.1);
    delete_value = λ n w. ((delete_value deps none n w.0).1, w.1);
    get_type_info = λ n w. (get_type_info deps none n w.0, w);
    put_type_info = λ n e w. ((put_type_info deps none n e w.0).1, w.1);
    get_browse = λ n w. (get_browse deps none n w.0, w);
    put_browse = λ n e w. ((put_browse deps none n e w.0).1, w.1);
  }

  -- The store encodes and writes an entry of a node without an error.
  abbrev pub Stores : String → ValueEntry → Type 0
  Stores n e = (d : Db) → (put_value deps none n e d).0 ≡ none

  module _ (laws : DepsLaws deps) where
    -- The store keeps the laws that the subscriptions' pump relies on.
    pub over_store-KeepsValues : KeepsValues over_store Stores
    over_store-KeepsValues = record {
      get_put = λ n e w stores.
          let d' = (put_value deps none n e w.0).1 in
          get_value-put_value deps laws n e w.0 d' (λ i. (stores w.0 i, d'));
      get_other = λ node n e w apart.
          (put_value_other deps laws none node n e w.0).0
            (λ same. ground (arith, apart, same, ==_iff node n));
    }

    deleted :
        (n : String) (d : Db)
        → (delete_value deps none n d).0 ≡ none
        → get_value deps none n (delete_value deps none n d).1 ≡ ok none
    unfolding delete_value get_value
    deleted n d h =
        let d' = (delete deps.bolt bucket_values n d).1 in
        rw
          (get-delete deps.bolt laws.bolt deps.values laws.values bucket_values n d d'
            (λ i. (h i, d')))
          refl

    -- The store keeps the laws that the cache relies on at a node, where its deletions do not fail.
    pub over_store-CacheLaws :
        (n : String) → ((d : Db) → (delete_value deps none n d).0 ≡ none) → CacheLaws over_store n
    over_store-CacheLaws n deletes = record {
      get_delete = λ w. deleted n w.0 (deletes w.0);
      get_get = λ w. refl;
    }

    -- Over the store, a live read that was put into it without an error is served from the cache
    -- within the age allowed, as the server gave it.
    pub read_live-over_store :
        (cfg : CacheConfig) (n : String) (v : DataValue) (max_age : ℤ) (w w1 : Db × C)
        → cfg.enable_cache ≡ true
        → rest.client_read (n ∷ []) w ≡ (ok (v ∷ []), w1)
        → (put_value deps none n (live_entry v (rest.now w1)) w1.0).0 ≡ none
        → let w2 = (read_live over_store cfg (n ∷ []) w).1 in
          lez (rest.now w2 -ℤ rest.now w1) max_age ≡ true
          → (serve over_store cfg max_age n w2).0
            ≡ some (value_entry_to_read_result n (live_entry v (rest.now w1)) "cache")
    read_live-over_store cfg n v max_age w w1 on answer stored young =
        let entry = live_entry v (rest.now w1) in
        let d' = (put_value deps none n entry w1.0).1 in
        read_live-serve over_store cfg n v max_age w w1 on answer
          (get_value-put_value deps laws n entry w1.0 d' (λ i. (stored i, d'))) young
