-- ===== src/Handlers/Answer.antt =====
-- What the handlers of internal/mcp/server.go share: the arguments of a tool call, the maps that
-- are marshalled, and the answers. json.MarshalIndent is a parameter.
use opcua_mcp.Prelude.{ℕ, String, Bool, List, [], ◌∷◌, Option, none, some, string_eq}
use opcua_mcp.Prelude.Int.{ℤ}
use opcua_mcp.Prelude.Dict.{Dict, lookup}
use opcua_mcp.Prelude.Result.{Result, ok, err}
use opcua_mcp.Value.{Value}
use opcua_mcp.Session.{Error, ConnectOutcome}
use opcua_mcp.Cache
use opcua_mcp.Normalize.{Decoded}
use opcua_mcp.Discovery.{Reference}

-- The arguments of a call; a number is already the `int` of the float64 that came.
pub record Args : Type 0 where
  pub texts : Dict String String
  pub numbers : Dict String ℤ

abbrev or_default : {A : Type 0} → A → Option A → A
or_default d none = d
or_default d (some a) = a

-- `req.GetString(name, default)`
unfoldable pub get_string : Args → String → String → String
unfolding lookup
get_string args name default = or_default default (lookup name args.texts)

-- `int(req.GetFloat(name, default))`
unfoldable pub get_int : Args → String → ℤ → ℤ
unfolding lookup
get_int args name default = or_default default (lookup name args.numbers)

-- What is marshalled. A map is the list of its entries.
mutual
  pub data Json : Type 0 where
    null : Json
    flag : Bool → Json
    number : ℤ → Json
    text : String → Json
    value_json : Value → Json
    time_json : ℤ → Json
    zero_time : Json
    status_json : ℕ → Json
    -- a map[int]int
    number_map : Dict ℕ ℕ → Json
    list : Items → Json
    object : Fields → Json

  pub data Items : Type 0 where
    no_items : Items
    and_item : Json → Items → Items

  pub data Fields : Type 0 where
    no_fields : Fields
    field : String → Json → Fields → Fields

abbrev pub items : {A : Type 0} → (A → Json) → List A → Items
items f [] = no_items
items f (a ∷ as_) = and_item (f a) (items f as_)

-- A slice that is nil where nothing was appended to it.
abbrev pub nil_or_list : Items → Json
nil_or_list no_items = null
nil_or_list (and_item j more) = list (and_item j more)

-- The text of an answer that reports an error: the name of a missing parameter, a fixed text, or a
-- prefix with the error that follows it.
pub data Refusal : Type 0 where
  required : String → Refusal
  refused : String → Refusal
  failed : String → Error → Refusal
  cache_failed : String → Cache.Error → Refusal
  -- both errors of the server information
  both_failed : Error → Error → Refusal
  -- a failed write, with the notes on the node
  write_failed : Cache.Error → List (String × Json) → Refusal
  -- a panic, which the MCP server recovers
  panicked : Refusal

-- What `opcuaClient.Read` returns for a node.
pub record Reading : Type 0 where
  pub value : Decoded
  pub status : ℕ
  pub source_timestamp : ℤ
  pub server_timestamp : ℤ

-- The methods of `*opcua.Client` that the handlers call.
pub record OpcuaClient (W : Type 0) : Type 0 where
  pub read : List String → W → Result Error (List Reading) × W
  pub browse : String → W → Result Error (List Reference) × W
  pub get_node_class : String → W → Result Error ℕ × W
  pub is_connected : W → Bool
  pub ensure_connected : W → Result Error ConnectOutcome × W
  pub disconnect : W → Option Error × W

abbrev pub marshalled_json : Result Error String → Result Refusal String
marshalled_json (ok t) = ok t
marshalled_json (err e) = err (failed "Failed to marshal response" e)

module _ (marshal_indent : Json → Result Error String) where
  -- `marshalResponse`, and the same lines at the end of the other handlers
  abbrev pub marshal_response : Json → Result Refusal String
  marshal_response response = marshalled_json (marshal_indent response)
