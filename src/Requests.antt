-- ===== src/Requests.antt =====
-- The requests of internal/opcua/client.go that read and browse: what the server answers is the
-- interface `Server`, the connection they run on is Session's.
pub mod Read
pub mod Browse
pub mod Attributes
pub mod NodeIds
pub mod ServerInfo
use opcua_mcp.Prelude.{ℕ, String, List, Option}
use opcua_mcp.Prelude.Int.{ℤ}
use opcua_mcp.Prelude.Result.{Result}
use opcua_mcp.Session.{Error}
use opcua_mcp.Write.NodeType.{DataType}

-- A decoded attribute, as far as the code asserts its type: *ua.NodeID (the data type), int32,
-- []uint32, byte, or something else.
pub data Raw : Type 0 where
  raw_node_id : DataType → Raw
  raw_int32 : ℤ → Raw
  raw_uint32s : List ℕ → Raw
  raw_byte : ℕ → Raw
  raw_other : Raw

-- One `ua.DataValue` of the response for an attribute.
pub record AttributeValue : Type 0 where
  pub status : ℕ
  pub value : Raw

-- One result of Browse or BrowseNext.
pub record BrowseResult (R : Type 0) : Type 0 where
  pub status : ℕ
  pub references : List R
  pub continuation_point : List ℕ

-- gopcua on a connection: `I` are parsed node identifiers, `V` the values read, `R` the references.
pub record Server (W I V R : Type 0) : Type 0 where
  pub parse_node_id : String → Option I
  -- Read of the attribute Value of several nodes
  pub read : ℕ → List I → W → Result Error (List V) × W
  -- Read of one attribute, by its AttributeID, of one node
  pub read_attribute : ℕ → I → ℕ → W → Result Error (List AttributeValue) × W
  pub browse : ℕ → I → W → Result Error (List (BrowseResult R)) × W
  pub browse_next : ℕ → List ℕ → W → Result Error (List (BrowseResult R)) × W
  pub context_error : W → Option Error  -- ctx.Err()
  pub grace_period : W → W
  pub bad_decoding : V  -- the synthetic value with the status BadDecodingError
