-- ===== src/Cache/Quiet.antt =====
-- The reads and browses of internal/opcua/caching_client.go leave alone what its calls leave alone:
-- `n` observes a number of the world, such as the requests of one kind that were sent.
use opcua_mcp.Prelude.{
  ℕ, suc, String, Bool, false, true, List, [], ◌∷◌, ◌≡◌, refl, ap, ◌∙◌, arith, if◌then◌else◌,
}
use opcua_mcp.Prelude.Int.{ℤ}
use opcua_mcp.Prelude.Result.{Result, ok, err}
use opcua_mcp.Store.Types.{ValueEntry, BrowseEntry, BrowseReference}
use opcua_mcp.Cache.{
  Error, Backend, CacheConfig, DataValue, ReadResult, Pending, serve, scan, store_live, take_values,
  read_live, combine, finish_read, read, ids, milliseconds, live_entry,
}
use opcua_mcp.Cache.Metadata.{browse, browse_live, store_browse}

-- The calls that a read or a browse makes leave `n` alone.
pub record QuietReads {W : Type 0} (b : Backend W) (n : W → ℕ) : Type 0 where
  pub get_value : (id : String) (w : W) → n (b.get_value id w).1 ≡ n w
  pub put_value : (id : String) (e : ValueEntry) (w : W) → n (b.put_value id e w) ≡ n w
  pub get_browse : (id : String) (w : W) → n (b.get_browse id w).1 ≡ n w
  pub put_browse : (id : String) (e : BrowseEntry) (w : W) → n (b.put_browse id e w) ≡ n w
  pub client_read : (nodes : List String) (w : W) → n (b.client_read nodes w).1 ≡ n w
  pub client_browse : (id : String) (w : W) → n (b.client_browse id w).1 ≡ n w
  pub record_cache_result : (hit : Bool) (w : W) → n (b.record_cache_result hit w) ≡ n w

module _ {W : Type 0} (b : Backend W) (cfg : CacheConfig) (n : W → ℕ) (q : QuietReads b n) where
  serve-quiet : (age : ℤ) (id : String) (w : W) → n (serve b cfg age id w).1 ≡ n w
  unfolding serve
  serve-quiet age id w = q.record_cache_result _ _ ∙ q.get_value id w

  scan-quiet :
      (age : ℤ) (i : ℕ) (nodes : List String) (w : W) → n (scan b cfg age i nodes w).1 ≡ n w
  unfolding scan
  scan-quiet age i [] w = refl
  scan-quiet age i (id ∷ nodes) w = scan-quiet age (suc i) nodes _ ∙ serve-quiet age id w

  put_if-quiet :
      (on : Bool) (id : String) (e : ValueEntry) (w : W)
      → n (if on then b.put_value id e w else w) ≡ n w
  put_if-quiet on id e w = ground (arith, q.put_value id e w)

  store_live-quiet :
      (t : ℤ) (nodes : List String) (vs : List DataValue) (w : W)
      → n (store_live b cfg t nodes vs w).1 ≡ n w
  unfolding store_live
  store_live-quiet t nodes [] w = refl
  store_live-quiet t [] (v ∷ vs) w = refl
  store_live-quiet t (id ∷ nodes) (v ∷ vs) w =
      store_live-quiet t nodes vs _ ∙ put_if-quiet cfg.enable_cache id (live_entry v t) w

  take_values-quiet :
      (nodes : List String) (r : Result Error (List DataValue)) (w : W)
      → n (take_values b cfg nodes r w).1 ≡ n w
  take_values-quiet nodes (err e) w = refl
  take_values-quiet nodes (ok vs) w = store_live-quiet (b.now w) nodes vs w

  read_live-quiet : (nodes : List String) (w : W) → n (read_live b cfg nodes w).1 ≡ n w
  unfolding read_live
  read_live-quiet [] w = refl
  read_live-quiet (id ∷ nodes) w = take_values-quiet (id ∷ nodes) _ _ ∙ q.client_read (id ∷ nodes) w

  combine-world :
      (results : List ReadResult) (pending : Pending) (x : Result Error (List ReadResult) × W)
      → (combine b cfg results pending x).1 ≡ x.1
  combine-world results pending (err e, w) = refl
  combine-world results pending (ok live, w) = refl

  finish_read-quiet : (x : (List ReadResult × Pending) × W) → n (finish_read b cfg x).1 ≡ n x.1
  finish_read-quiet ((results, []), w) = refl
  finish_read-quiet ((results, p ∷ ps), w) =
      ap n (combine-world results (p ∷ ps) _) ∙ read_live-quiet (ids (p ∷ ps)) w

  either-quiet :
      {A : Type 0} (c : Bool) (x y : A × W) (k : ℕ)
      → n x.1 ≡ k
      → n y.1 ≡ k
      → n (if c then x else y).1 ≡ k
  either-quiet true x y k p q = p
  either-quiet false x y k p q = q

  pub read-quiet : (nodes : List String) (age : ℤ) (w : W) → n (read b cfg nodes age w).1 ≡ n w
  unfolding read
  read-quiet nodes age w =
      either-quiet cfg.enable_cache (finish_read b cfg (scan b cfg (milliseconds age) 0 nodes w))
        (read_live b cfg nodes w) (n w)
        (finish_read-quiet (scan b cfg (milliseconds age) 0 nodes w)
          ∙ scan-quiet (milliseconds age) 0 nodes w)
        (read_live-quiet nodes w)

  store_browse-quiet :
      (id : String) (x : Result Error (List BrowseReference) × W)
      → n (store_browse b cfg id x).1 ≡ n x.1
  store_browse-quiet id (err e, w) = refl
  store_browse-quiet id (ok refs, w) =
      ground (arith, q.put_browse id (record { references = refs; cached_at = b.now w }) w)

  browse_live-quiet : (id : String) (w : W) → n (browse_live b cfg id w).1 ≡ n w
  browse_live-quiet id w = store_browse-quiet id _ ∙ q.client_browse id w

  pub browse-quiet : (id : String) (w : W) → n (browse b cfg id w).1 ≡ n w
  unfolding browse
  browse-quiet id w = ground (
    arith,
    browse_live-quiet id w,
    browse_live-quiet id (b.record_cache_result false (b.get_browse id w).1),
    q.record_cache_result false (b.get_browse id w).1,
    q.record_cache_result true (b.get_browse id w).1,
    q.get_browse id w,
  )
