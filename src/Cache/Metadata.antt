-- ===== src/Cache/Metadata.antt =====
-- `Browse` and `GetNodeTypeInfo` of internal/opcua/caching_client.go.
use opcua_mcp.Prelude.{String, true, false, List, Option, none, some, if◌then◌else◌, ◌≡◌, refl, sym}
use opcua_mcp.Prelude.Int.{ℤ, lez, ◌-ℤ◌}
use opcua_mcp.Prelude.Result.{Result, ok, err}
use opcua_mcp.Store.Types.{TypeInfoEntry, BrowseEntry, BrowseReference}
use opcua_mcp.Store.Types
use opcua_mcp.Write.NodeType.{NodeTypeInfo, rank_is_array, rank_is_scalar, has_write_access}
use opcua_mcp.Cache.{Error, Backend, CacheConfig}

unfoldable pub type_info_entry_to_node_type_info : TypeInfoEntry → NodeTypeInfo
type_info_entry_to_node_type_info entry = record {
  data_type = record { namespace = entry.data_type_namespace; int_id = entry.data_type_id };
  value_rank = entry.value_rank;
  array_dimensions = entry.array_dimensions;
  is_array = rank_is_array entry.value_rank;
  is_scalar = rank_is_scalar entry.value_rank;
  access_level = entry.access_level;
  user_access_level = entry.user_access_level;
  is_writable = has_write_access entry.access_level;
  is_user_writable = has_write_access entry.user_access_level;
}

-- The entry that type information is cached as.
abbrev pub type_info_entry : NodeTypeInfo → ℤ → TypeInfoEntry
type_info_entry i t = record {
  data_type_id = i.data_type.int_id;
  data_type_namespace = i.data_type.namespace;
  value_rank = i.value_rank;
  array_dimensions = i.array_dimensions;
  access_level = i.access_level;
  user_access_level = i.user_access_level;
  cached_at = t;
}

-- A node's type information as `GetNodeTypeInfo` of the client fills it in.
pub record IsDerived (i : NodeTypeInfo) : Type 0 where
  pub array : i.is_array ≡ rank_is_array i.value_rank
  pub scalar : i.is_scalar ≡ rank_is_scalar i.value_rank
  pub writable : i.is_writable ≡ has_write_access i.access_level
  pub user_writable : i.is_user_writable ≡ has_write_access i.user_access_level

-- Type information that the client derived comes back from the cache as it was, its namespace and
-- its derived flags included, whenever it was cached.
pub type_info_entry-round_trip :
    (i : NodeTypeInfo) (t : ℤ)
    → IsDerived i
    → type_info_entry_to_node_type_info (type_info_entry i t) ≡ i
unfolding type_info_entry_to_node_type_info
type_info_entry-round_trip i t d =
    rw (sym d.array, sym d.scalar, sym d.writable, sym d.user_writable) refl

module _ {W : Type 0} (b : Backend W) (cfg : CacheConfig) where
  -- The cached entry that is served: it is there, and within its time to live.
  abbrev fresh : {A : Type 0} → (A → ℤ) → ℤ → ℤ → Result Types.Error (Option A) → Option A
  fresh cached_at ttl t (err e) = none
  fresh cached_at ttl t (ok none) = none
  fresh cached_at ttl t (ok (some a)) = if lez (t -ℤ cached_at a) ttl then some a else none

  abbrev pub store_browse :
      String → Result Error (List BrowseReference) × W → Result Error (List BrowseReference) × W
  store_browse node_id (err e, w) = (err e, w)
  store_browse node_id (ok refs, w) =
      if cfg.enable_cache
      then (ok refs, b.put_browse node_id (record { references = refs; cached_at = b.now w }) w)
      else (ok refs, w)

  abbrev pub browse_live : String → W → Result Error (List BrowseReference) × W
  browse_live node_id w = store_browse node_id (b.client_browse node_id w)

  unfoldable pub browse : String → W → Result Error (List BrowseReference) × W
  browse node_id w =
      if cfg.enable_cache
      then (let (e, w') = b.get_browse node_id w in
          elim (fresh (λ a. a.cached_at) cfg.browse_ttl (b.now w') e) [
            | some a ↦ (ok a.references, b.record_cache_result true w')
            | none ↦ browse_live node_id (b.record_cache_result false w')
          ])
      else browse_live node_id w

  abbrev store_type_info : String → Result Error NodeTypeInfo × W → Result Error NodeTypeInfo × W
  store_type_info node_id (err e, w) = (err e, w)
  store_type_info node_id (ok i, w) =
      if cfg.enable_cache
      then (ok i, b.put_type_info node_id (type_info_entry i (b.now w)) w)
      else (ok i, w)

  abbrev type_info_live : String → W → Result Error NodeTypeInfo × W
  type_info_live node_id w = store_type_info node_id (b.client_node_type_info node_id w)

  unfoldable pub get_node_type_info : String → W → Result Error NodeTypeInfo × W
  unfolding type_info_entry_to_node_type_info
  get_node_type_info node_id w =
      if cfg.enable_cache
      then (let (e, w') = b.get_type_info node_id w in
          elim (fresh (λ a. a.cached_at) cfg.type_info_ttl (b.now w') e) [
            | some a ↦ (ok (type_info_entry_to_node_type_info a), b.record_cache_result true w')
            | none ↦ type_info_live node_id (b.record_cache_result false w')
          ])
      else type_info_live node_id w
