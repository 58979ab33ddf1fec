-- ===== src/Cache/Read/Fresh.antt =====
-- What a live read of internal/opcua/caching_client.go leaves for the next read of the node.
use opcua_mcp.Prelude.{
  String, true, [], ◌∷◌, none, some, if◌then◌else◌, ◌≡◌, refl, sym, subst, ap, ◌∙◌, string_eq,
}
use opcua_mcp.Prelude.Int.{ℤ, lez, ◌-ℤ◌}
use opcua_mcp.Prelude.Result.{ok}
use opcua_mcp.Cache.{
  Backend, CacheConfig, DataValue, serve, provenance, read_live, store_live, live_entry,
  value_entry_to_read_result, take_values, decide,
}

-- What the cache of values does at a node: after a deletion it is absent, and a read changes nothing.
pub record CacheLaws {W : Type 0} (b : Backend W) (n : String) : Type 0 where
  pub get_delete : (w : W) → (b.get_value n (b.delete_value n w)).0 ≡ ok none
  pub get_get : (w : W) → (b.get_value n (b.get_value n w).1).0 ≡ (b.get_value n w).0

module _ {W : Type 0} (b : Backend W) (cfg : CacheConfig) where
  live-world :
      (n : String) (v : DataValue) (w w1 : W)
      → cfg.enable_cache ≡ true
      → b.client_read (n ∷ []) w ≡ (ok (v ∷ []), w1)
      → (read_live b cfg (n ∷ []) w).1 ≡ b.put_value n (live_entry v (b.now w1)) w1
  unfolding read_live store_live
  live-world n v w w1 on answer =
      ap (λ x. (take_values b cfg (n ∷ []) x.0 x.1).1) answer
      ∙ ap (λ c. if c then b.put_value n (live_entry v (b.now w1)) w1 else w1) on

  -- After a live read of a node, the next read of it within the age allowed comes from the cache:
  -- it has the value, the status and the timestamps that the server gave, if the store keeps the entry.
  pub read_live-serve :
      (n : String) (v : DataValue) (max_age : ℤ) (w w1 : W)
      → cfg.enable_cache ≡ true
      → b.client_read (n ∷ []) w ≡ (ok (v ∷ []), w1)
      → (b.get_value n (b.put_value n (live_entry v (b.now w1)) w1)).0
        ≡ ok (some (live_entry v (b.now w1)))
      → let w2 = (read_live b cfg (n ∷ []) w).1 in
        lez (b.now (b.get_value n w2).1 -ℤ b.now w1) max_age ≡ true
        → (serve b cfg max_age n w2).0
          ≡ some (value_entry_to_read_result n (live_entry v (b.now w1)) "cache")
  unfolding serve provenance
  read_live-serve n v max_age w w1 on answer stored young =
      let t = b.now w1 in
      let w3 = b.put_value n (live_entry v t) w1 in
      let e = live-world n v w w1 on answer in
      let old = subst (λ u. lez (b.now (b.get_value n u).1 -ℤ t) max_age ≡ true) e young in
      subst
        (λ u.
          (serve b cfg max_age n u).0
          ≡ some (value_entry_to_read_result n (live_entry v t) "cache"))
        (sym e) (rw (stored, decide, old) refl)
