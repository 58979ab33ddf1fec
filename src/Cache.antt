-- ===== src/Cache.antt =====
-- internal/opcua/caching_client.go: the read-through cache in front of the client.
pub mod Read
pub mod Write
pub mod Metadata
pub mod Stored
pub mod Published
pub mod Quiet
use opcua_mcp.Prelude.{
  ℕ, zero, suc, ◌+◌, ◌*◌, ◌%◌, ◌^◌, String, Bool, true, false, not, List, [], ◌∷◌, ◌++◌, map,
  Option, none, some, nat_beq, leb, if◌then◌else◌, ◌==◌, string_eq, set, ◌&&◌,
}
use opcua_mcp.Prelude.Int.{ℤ, lez, ◌-ℤ◌, pos, negsuc, neg}
use opcua_mcp.Prelude.Result.{Result, ok, err}
use opcua_mcp.Value.{Value, nil}
use opcua_mcp.Store.Types.{ValueEntry, TypeInfoEntry, BrowseEntry, BrowseReference}
use opcua_mcp.Store.Types
use opcua_mcp.Write.Cast.{wrap_signed, half64}
use opcua_mcp.Write.NodeType.{NodeTypeInfo, rank_is_array, rank_is_scalar, has_write_access}

pub data Error : Type 0 where
  external : ℕ → Error
  -- an index out of range
  index_panic : Error

-- `ua.DataValue` as `Read` uses it, its value through `NormalizeReadValue`.
pub record DataValue : Type 0 where
  pub value : Value
  pub status : String
  pub source_timestamp : ℤ
  pub server_timestamp : ℤ

-- `CachedAt` is `none` for the zero time.
pub record ReadResult : Type 0 where
  pub node_id : String
  pub value : Value
  pub status : String
  pub source_timestamp : Option ℤ
  pub server_timestamp : Option ℤ
  pub source : String
  pub cached_at : Option ℤ

-- `valueTypeBrowseStore`, `*Client`, the telemetry and the clock, on a world.
pub record Backend (W : Type 0) : Type 0 where
  pub get_value : String → W → Result Types.Error (Option ValueEntry) × W
  pub put_value : String → ValueEntry → W → W
  pub delete_value : String → W → W
  pub get_type_info : String → W → Result Types.Error (Option TypeInfoEntry) × W
  pub put_type_info : String → TypeInfoEntry → W → W
  pub get_browse : String → W → Result Types.Error (Option BrowseEntry) × W
  pub put_browse : String → BrowseEntry → W → W
  pub client_read : List String → W → Result Error (List DataValue) × W
  pub client_write : String → Value → W → Option Error × W
  pub client_browse : String → W → Result Error (List BrowseReference) × W
  pub client_node_type_info : String → W → Result Error NodeTypeInfo × W
  pub record_cache_result : Bool → W → W
  pub now : W → ℤ

pub record CacheConfig : Type 0 where
  pub enable_cache : Bool
  pub type_info_ttl : ℤ
  pub browse_ttl : ℤ

unfoldable pub value_entry_to_read_result : String → ValueEntry → String → ReadResult
value_entry_to_read_result node_id entry source = record {
  node_id = node_id;
  value = entry.value;
  status = entry.status;
  source_timestamp = some entry.source_timestamp;
  server_timestamp = some entry.server_timestamp;
  source = source;
  cached_at = some entry.received_at;
}

abbrev pub live_result : String → DataValue → ReadResult
live_result node_id v = record {
  node_id = node_id;
  value = v.value;
  status = v.status;
  source_timestamp = some v.source_timestamp;
  server_timestamp = some v.server_timestamp;
  source = "live";
  cached_at = none;
}

-- The entry that a live result is cached as, received at `t`.
abbrev pub live_entry : DataValue → ℤ → ValueEntry
live_entry v t = record {
  value = v.value;
  status = v.status;
  source_timestamp = v.source_timestamp;
  server_timestamp = v.server_timestamp;
  received_at = t;
  source = "live";
}

-- An element of `make([]ReadResult, n)`.
abbrev pub blank : ReadResult
blank = record {
  node_id = "";
  value = nil;
  status = "";
  source_timestamp = none;
  server_timestamp = none;
  source = "";
  cached_at = none;
}

abbrev pub blanks : List String → List ReadResult
blanks [] = []
blanks (n ∷ ns) = blank ∷ blanks ns

-- `time.Duration(maxAgeMs) * time.Millisecond`: nanoseconds, in an int64.
abbrev pub milliseconds : ℤ → ℤ
milliseconds (pos n) = wrap_signed half64 (pos (n * 1000000))
milliseconds (negsuc n) = wrap_signed half64 (neg (suc n * 1000000))

-- The case of the switch that serves an entry: what the result says of its source, or `none` for
-- a live read.
unfoldable pub provenance : ValueEntry → ℤ → ℤ → Option String
provenance entry t max_age =
    if entry.source == "subscription"
    then some "subscription"
    else if entry.source == "live" && lez (t -ℤ entry.received_at) max_age
    then some "cache"
    else none

-- `LiveIdx` with `LiveIDs`: the nodes that go to the server, and their places.
abbrev pub Pending : Type 0
Pending = List (ℕ × String)

-- The loop `results[idx] = liveResults[j]`; `none` is the panic of a missing live result.
unfoldable pub merge : List ReadResult → Pending → List ReadResult → Option (List ReadResult)
merge results [] live = some results
merge results (p ∷ ps) [] = none
merge results ((i, n) ∷ ps) (r ∷ rs) = merge (set results i r) ps rs

-- The result of place `i`: what the cache served, or blank and pending.
abbrev pub place :
    ℕ → String → Option ReadResult → List ReadResult × Pending → List ReadResult × Pending
place i n (some served) (results, pending) = (served ∷ results, pending)
place i n none (results, pending) = (blank ∷ results, (i, n) ∷ pending)

abbrev pub ids : Pending → List String
ids [] = []
ids ((i, n) ∷ ps) = n ∷ ids ps

module _ {W : Type 0} (b : Backend W) (cfg : CacheConfig) where
  abbrev pub decide : String → Result Types.Error (Option ValueEntry) → ℤ → ℤ → Option ReadResult
  decide node_id (err e) t max_age = none
  decide node_id (ok none) t max_age = none
  decide node_id (ok (some entry)) t max_age = elim (provenance entry t max_age) [
    | none ↦ none
    | some source ↦ some (value_entry_to_read_result node_id entry source)
  ]

  abbrev pub is_hit : Option ReadResult → Bool
  is_hit none = false
  is_hit (some r) = true

  -- The body of the loop of `Read`: the result that the cache serves, if any.
  unfoldable pub serve : ℤ → String → W → Option ReadResult × W
  serve max_age node_id w =
      let (e, w') = b.get_value node_id w in
      let r = decide node_id e (b.now w') max_age in (r, b.record_cache_result (is_hit r) w')

  -- The loop of `Read` from place `i` on: the results, blank where the read goes live, and the
  -- pending nodes.
  unfoldable pub scan : ℤ → ℕ → List String → W → (List ReadResult × Pending) × W
  scan max_age i [] w = (([], []), w)
  scan max_age i (n ∷ ns) w =
      let (r, w1) = serve max_age n w in
      let (s, w2) = scan max_age (suc i) ns w1 in (place i n r s, w2)

  -- The loop of `readLive`; `none` is the panic of a value without a node.
  unfoldable pub store_live : ℤ → List String → List DataValue → W → Option (List ReadResult) × W
  store_live t nodes [] w = (some (blanks nodes), w)
  store_live t [] (v ∷ vs) w = (none, w)
  store_live t (n ∷ ns) (v ∷ vs) w =
      let w1 = if cfg.enable_cache then b.put_value n (live_entry v t) w else w in
      let (rest, w2) = store_live t ns vs w1 in
      (elim rest [ none ↦ none | some rs ↦ some (live_result n v ∷ rs) ], w2)

  abbrev pub or_panic : Option (List ReadResult) → Result Error (List ReadResult)
  or_panic none = err index_panic
  or_panic (some rs) = ok rs

  abbrev pub take_values :
      List String → Result Error (List DataValue) → W → Result Error (List ReadResult) × W
  take_values nodes (err e) w = (err e, w)
  take_values nodes (ok vs) w = let (r, w') = store_live (b.now w) nodes vs w in (or_panic r, w')

  unfoldable pub read_live : List String → W → Result Error (List ReadResult) × W
  unfolding store_live
  read_live [] w = (ok [], w)
  read_live (n ∷ ns) w = let (r, w') = b.client_read (n ∷ ns) w in take_values (n ∷ ns) r w'

  abbrev pub combine :
      List ReadResult
      → Pending
      → Result Error (List ReadResult) × W
      → Result Error (List ReadResult) × W
  combine results pending (err e, w) = (err e, w)
  combine results pending (ok live, w) = (or_panic (merge results pending live), w)

  abbrev pub finish_read : (List ReadResult × Pending) × W → Result Error (List ReadResult) × W
  finish_read ((results, []), w) = (ok results, w)
  finish_read ((results, p ∷ ps), w) = combine results (p ∷ ps) (read_live (ids (p ∷ ps)) w)

  unfoldable pub read : List String → ℤ → W → Result Error (List ReadResult) × W
  unfolding scan read_live merge
  read nodes max_age_ms w =
      if cfg.enable_cache
      then finish_read (scan (milliseconds max_age_ms) 0 nodes w)
      else read_live nodes w

  -- `Write`: the value is invalidated unless a subscription keeps it current.
  abbrev pub invalidate : String → Result Types.Error (Option ValueEntry) → W → W
  invalidate node_id (err e) w = w
  invalidate node_id (ok none) w = w
  invalidate node_id (ok (some entry)) w =
      if entry.source == "subscription" then w else b.delete_value node_id w

  abbrev pub after_write : String → Option Error × W → Option Error × W
  after_write node_id (some e, w) = (some e, w)
  after_write node_id (none, w) =
      if cfg.enable_cache
      then (let (r, w') = b.get_value node_id w in (none, invalidate node_id r w'))
      else (none, w)

  unfoldable pub write : String → Value → W → Option Error × W
  write node_id value w = after_write node_id (b.client_write node_id value w)
