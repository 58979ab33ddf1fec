-- ===== src/Store/Types.antt =====
-- internal/store/types.go
use opcua_mcp.Prelude.{ℕ, String, List}
use opcua_mcp.Prelude.Int.{ℤ}
use opcua_mcp.Value.{Value}

pub data Error : Type 0 where
  empty_key : Error
  cancelled : Error
  backend : ℕ → Error
  json : ℕ → Error
  cannot_encode : Error
  unknown_kind : String → Error
  at_element : ℕ → Error → Error

-- Times are nanoseconds since the Unix epoch.
pub record ValueEntry : Type 0 where
  pub value : Value
  pub status : String
  pub source_timestamp : ℤ
  pub server_timestamp : ℤ
  pub received_at : ℤ
  pub source : String

pub record TypeInfoEntry : Type 0 where
  pub data_type_id : ℕ
  pub data_type_namespace : ℕ
  pub value_rank : ℤ
  pub array_dimensions : List ℕ
  pub access_level : ℕ
  pub user_access_level : ℕ
  pub cached_at : ℤ

pub record BrowseReference : Type 0 where
  pub node_id : String
  pub browse_name : String
  pub display_name : String
  pub node_class : String
  pub type_definition : String

pub record BrowseEntry : Type 0 where
  pub references : List BrowseReference
  pub cached_at : ℤ

pub record SubscriptionIntent : Type 0 where
  pub id : String
  pub node_ids : List String
  pub interval_ms : ℤ
  pub created_at : ℤ

-- `encodedValue`: the kind, the JSON text of a scalar, and the elements of an array.
mutual
  pub data EncodedValue (Raw : Type 0) : Type 0 where
    encoded : String → Raw → EncodedValues Raw → EncodedValue Raw

  pub data EncodedValues (Raw : Type 0) : Type 0 where
    no_elems : EncodedValues Raw
    elem : EncodedValue Raw → EncodedValues Raw → EncodedValues Raw

pub record StoredValueEntry (Raw : Type 0) : Type 0 where
  pub value : EncodedValue Raw
  pub status : String
  pub source_timestamp : ℤ
  pub server_timestamp : ℤ
  pub received_at : ℤ
  pub source : String
