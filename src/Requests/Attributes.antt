-- ===== src/Requests/Attributes.antt =====
-- The reads of single attributes in internal/opcua/client.go, and what
-- internal/opcua/session_recovery.go puts around them.
use opcua_mcp.Prelude.{
  ℕ, ◌+◌, ◌≤◌, String, Bool, true, false, List, [], ◌∷◌, Option, none, some, nat_beq, if◌then◌else◌,
  ◌≡◌, refl, Option-cases, inl, inr,
}
use opcua_mcp.Prelude.Int.{ℤ, pos, pos_part, lez}
use opcua_mcp.Prelude.Result.{Result, ok, err}
use opcua_mcp.Value.{Value}
use opcua_mcp.Session.{
  Error, message, wrap, Client, Net, snapshot, Operation, WriteRequest, with_session_recovery,
}
use opcua_mcp.Session.Recovery.{Uncounted, with_session_recovery_quiet}
use opcua_mcp.Write.Runtime.{Runtime}
use opcua_mcp.Write.NodeType.{DataType}
use opcua_mcp.Write.Node.{Wire, write_node}
use opcua_mcp.Write.Node.Sent.{write_node-Once}
use opcua_mcp.Requests.{Raw, raw_node_id, raw_int32, raw_uint32s, raw_byte, AttributeValue, Server}

-- `ua.AttributeID…`
abbrev pub attribute_node_class : ℕ
attribute_node_class = 2

abbrev pub attribute_data_type : ℕ
attribute_data_type = 14

abbrev pub attribute_value_rank : ℕ
attribute_value_rank = 15

abbrev pub attribute_array_dimensions : ℕ
attribute_array_dimensions = 16

abbrev pub attribute_access_level : ℕ
attribute_access_level = 17

abbrev pub attribute_user_access_level : ℕ
attribute_user_access_level = 18

-- The type assertions on the value of an attribute.
abbrev pub decode_node_class : Raw → Result Error ℕ
decode_node_class (raw_int32 z) =
    if lez z (pos 0) then err (message "invalid value") else ok (pos_part z)
decode_node_class _ = err (message "unexpected type")

abbrev pub decode_data_type : Raw → Result Error DataType
decode_data_type (raw_node_id d) = ok d
decode_data_type _ = err (message "failed to extract data type from result")

abbrev pub decode_value_rank : Raw → Result Error ℤ
decode_value_rank (raw_int32 z) = ok z
decode_value_rank _ = err (message "failed to extract value rank from result")

abbrev pub decode_array_dimensions : Raw → Result Error (List ℕ)
decode_array_dimensions (raw_uint32s ds) = ok ds
decode_array_dimensions _ = ok []

abbrev pub decode_access_level : Raw → Result Error ℕ
decode_access_level (raw_byte b) = ok b
decode_access_level _ = err (message "failed to extract access level from result")

-- What follows the request: its error, the status of its first result, an empty response.
abbrev pub first_value :
    {A : Type 0} → (Raw → Result Error A) → Result Error (List AttributeValue) → Result Error A
first_value extract (err e) = err (wrap "failed to read attribute" e)
first_value extract (ok []) = err (message "no results returned")
first_value extract (ok (v ∷ vs)) =
    if nat_beq v.status 0 then extract v.value else err (message "read failed")

module _ {W I V R : Type 0} (sv : Server W I V R) where
  -- The common body of the six reads.
  unfoldable pub get_attribute : {A : Type 0} → ℕ → (Raw → Result Error A) → String → Operation W A
  get_attribute attribute extract node c w = elim (snapshot c) [
    | none ↦ (err (message "client is not connected"), w)
    | some k ↦ elim (sv.parse_node_id node) [
      | none ↦ (err (message "invalid node ID"), w)
      | some id ↦ let r = sv.read_attribute k id attribute w in (first_value extract r.0, r.1)
    ]
  ]

  abbrev pub get_node_class : String → Operation W ℕ
  get_node_class node = get_attribute attribute_node_class decode_node_class node

  abbrev pub get_node_data_type : String → Operation W DataType
  get_node_data_type node = get_attribute attribute_data_type decode_data_type node

  abbrev pub get_node_value_rank : String → Operation W ℤ
  get_node_value_rank node = get_attribute attribute_value_rank decode_value_rank node

  abbrev pub get_node_array_dimensions : String → Operation W (List ℕ)
  get_node_array_dimensions node =
      get_attribute attribute_array_dimensions decode_array_dimensions node

  abbrev pub get_node_access_level : String → Operation W ℕ
  get_node_access_level node = get_attribute attribute_access_level decode_access_level node

  abbrev pub get_node_user_access_level : String → Operation W ℕ
  get_node_user_access_level node =
      get_attribute attribute_user_access_level decode_access_level node

  abbrev is_parsed : Option I → Bool
  is_parsed none = false
  is_parsed (some id) = true

  -- The reads of Write.Node, each with the recovery of the session around it.
  abbrev pub over_server : Net W → (Value → Bool) → Wire W
  over_server net is_variant = record {
    is_node_id = λ node. is_parsed (sv.parse_node_id node);
    is_variant = is_variant;
    data_type = λ node c w. with_session_recovery net (get_node_data_type node) c w;
    value_rank = λ node c w. with_session_recovery net (get_node_value_rank node) c w;
    array_dimensions = λ node c w. with_session_recovery net (get_node_array_dimensions node) c w;
    access_level = λ node c w. with_session_recovery net (get_node_access_level node) c w;
    user_access_level = λ node c w. with_session_recovery net (get_node_user_access_level node) c w;
  }

  pub get_attribute_quiet :
      (n : W → ℕ)
      → ((k : ℕ) (id : I) (a : ℕ) (w : W) → n (sv.read_attribute k id a w).1 ≡ n w)
      → {A : Type 0} (attribute : ℕ) (extract : Raw → Result Error A) (node : String) (c : Client)
        (w : W)
      → n (get_attribute attribute extract node c w).1 ≡ n w
  unfolding get_attribute
  get_attribute_quiet n quiet attribute extract node c w = elim (Option-cases (snapshot c)) [
    | inl down ↦ rw (get_attribute, down) refl
    | inr (k, up) ↦ elim (Option-cases (sv.parse_node_id node)) [
      | inl bad ↦ rw (get_attribute, up, bad) refl
      | inr (id, good) ↦ rw (get_attribute, up, good) (quiet k id attribute w)
    ]
  ]

  -- Over the reads of the client themselves, each with its recovery of the session, a write sends at
  -- most one write request, and exactly one where it returns no error. (`n` counts the write
  -- requests in the world; reading an attribute sends none.)
  pub write_node-over_server-Once :
      (net : Net W) (is_variant : Value → Bool) (r : Runtime) (n : W → ℕ) (u : Uncounted net n)
      (sends : (k : ℕ) (req : WriteRequest) (w : W) → n (net.write k req w).1 ≡ n w + 1)
      → ((k : ℕ) (id : I) (a : ℕ) (w : W) → n (sv.read_attribute k id a w).1 ≡ n w)
      → (node : String) (v : Value) (c : Client) (w : W)
      → let o = write_node (over_server net is_variant) net r node v c w in
        (n o.world ≤ n w + 1) × (o.error ≡ none → n o.world ≡ n w + 1)
  write_node-over_server-Once net is_variant r n u sends quiet node v c w =
      write_node-Once (over_server net is_variant) net r n u sends
        (record {
          data_type = λ s c' w'.
              with_session_recovery_quiet net n u (get_node_data_type s)
                (get_attribute_quiet n quiet attribute_data_type decode_data_type s) c' w';
          value_rank = λ s c' w'.
              with_session_recovery_quiet net n u (get_node_value_rank s)
                (get_attribute_quiet n quiet attribute_value_rank decode_value_rank s) c' w';
          dimensions = λ s c' w'.
              with_session_recovery_quiet net n u (get_node_array_dimensions s)
                (get_attribute_quiet n quiet attribute_array_dimensions decode_array_dimensions s)
                c' w';
          access = λ s c' w'.
              with_session_recovery_quiet net n u (get_node_access_level s)
                (get_attribute_quiet n quiet attribute_access_level decode_access_level s) c' w';
          user_access = λ s c' w'.
              with_session_recovery_quiet net n u (get_node_user_access_level s)
                (get_attribute_quiet n quiet attribute_user_access_level decode_access_level s) c'
                w';
        })
        node v c w
