-- ===== src/Write/Node/Typed.antt =====
-- What `Write` of internal/opcua/client.go sends to a node of a known type.
use opcua_mcp.Prelude.{
  ◌≡◌, refl, sym, subst, String, Bool, true, false, some, if◌then◌else◌, ◌⊎◌, inl, inr, Bool-cases,
}
use opcua_mcp.Prelude.Result.{ok, err, Result-cases}
use opcua_mcp.Value.{Value, Values, array, slice, type_of}
use opcua_mcp.Session.{Net, Client, is_connected, send_write}
use opcua_mcp.Write.Runtime.{Runtime}
use opcua_mcp.Write.Parse
use opcua_mcp.Write.NodeType.{NodeTypeInfo, Builtin, builtin, builtin_scalar_go_type}
use opcua_mcp.Write.Validate.{validate_value_for_node}
use opcua_mcp.Write.Convert.{convert_value_to_opcua_type, convert_scalar_value, convert_array_value}
use opcua_mcp.Write.Convert.Types.{
  AllOf, convert_scalar_value-type, convert_elements-type, convert_array_value-eq-ok,
}
use opcua_mcp.Write.Convert.Meaning.{
  Means, AllMean, FitsAll, FitsAll-Fits, convert_scalar_value-Means, convert_elements-Means,
}
use opcua_mcp.Write.Node.{
  Error, no_variant, not_converted, not_valid, Wire, Written, refused, written, write_variant,
  validate_and_write, write_with_type, write_node, get_node_type_info,
}

-- What a write sends: for an array node a slice of the node's Go type whose elements are the given
-- ones, for a scalar node the given value in the node's Go type.
abbrev pub IsSent : NodeTypeInfo → Builtin → Value → Value → Type 0
IsSent info t v x =
    ((info.is_array ≡ true)
      × ((vs : Values) × (ws : Values) × (v ≡ array vs)
          × (x ≡ slice (builtin_scalar_go_type t) ws)
          × AllOf (builtin_scalar_go_type t) ws
          × AllMean t vs ws))
    ⊎ ((info.is_array ≡ false) × (type_of x ≡ some (builtin_scalar_go_type t)) × Means t v x)

if_cases :
    {A : Type 0} (b : Bool) (x y z : A)
    → (if b then x else y) ≡ z
    → ((b ≡ true) × (x ≡ z)) ⊎ ((b ≡ false) × (y ≡ z))
if_cases true x y z h = inl (refl, h)
if_cases false x y z h = inr (refl, h)

module _ (r : Runtime) where
  array_given :
      (info : NodeTypeInfo) (v x : Value)
      → convert_array_value r info v ≡ ok x
      → (vs : Values) × (v ≡ array vs)
  unfolding convert_array_value
  array_given info (array vs) x h = (vs, refl)
  array_given info _ x h = cc

  convert_array-IsSent :
      (info : NodeTypeInfo) (t : Builtin) (v x : Value)
      → builtin info.data_type.int_id ≡ some t
      → FitsAll v
      → info.is_array ≡ true
      → convert_array_value r info v ≡ ok x
      → IsSent info t v x
  convert_array-IsSent info t v x known fits is_array p =
      let (vs, e) = array_given info v x p in
      let q = subst (λ u. convert_array_value r info u ≡ ok x) e p in
      let (ws, elements, made) = convert_array_value-eq-ok r info t vs x known q in
      inl (
        is_array,
        (
          vs,
          ws,
          e,
          made,
          (convert_elements-type r info t 0 vs ws known elements).0,
          convert_elements-Means r info t 0 vs ws known (subst FitsAll e fits) elements,
        ),
      )

  convert_value-IsSent :
      (info : NodeTypeInfo) (t : Builtin) (v x : Value)
      → builtin info.data_type.int_id ≡ some t
      → FitsAll v
      → convert_value_to_opcua_type r info v ≡ ok x
      → IsSent info t v x
  unfolding convert_value_to_opcua_type
  convert_value-IsSent info t v x known fits h =
      elim (if_cases info.is_array (convert_array_value r info v) (convert_scalar_value r info v)
        (ok x) h) [
          | inl (is_array, p) ↦ convert_array-IsSent info t v x known fits is_array p
          | inr (scalar, p) ↦ inr (
            scalar,
            convert_scalar_value-type r info t v x known p,
            convert_scalar_value-Means r info t v x known (FitsAll-Fits v fits) p,
          )
        ]

module _ {W : Type 0} (wire : Wire W) (net : Net W) (r : Runtime) where
  -- Why nothing was sent: the validation or the conversion failed, with this error, or gopcua makes
  -- no variant of the converted value.
  abbrev pub IsRefusal : NodeTypeInfo → Value → Error → Type 0
  IsRefusal info v e =
      ((x : Parse.Error) × (validate_value_for_node r info v ≡ err x) × (e ≡ not_valid x))
      ⊎ ((x : Parse.Error) × (convert_value_to_opcua_type r info v ≡ err x) × (e ≡ not_converted x))
      ⊎ ((x : Value) × (convert_value_to_opcua_type r info v ≡ ok x)
          × (wire.is_variant x ≡ false)
          × (e ≡ no_variant))

  -- A write that was answered before any request, for a reason, or the request with a value that was
  -- accepted.
  abbrev pub Checked : String → Value → NodeTypeInfo → Builtin → Client → W → Written W → Type 0
  Checked node v info t c w o =
      ((e : Error) × IsRefusal info v e × (o ≡ refused e c w))
      ⊎ ((x : Value) × (validate_value_for_node r info v ≡ ok tt)
          × IsSent info t v x
          × (o ≡ written (send_write net (record { node_id = node; value = x }) c w)))

  validate_and_write-Checked :
      (info : NodeTypeInfo) (t : Builtin) (node : String) (v : Value) (c : Client) (w : W)
      → builtin info.data_type.int_id ≡ some t
      → FitsAll v
      → Checked node v info t c w
          (validate_and_write wire net r info node v (validate_value_for_node r info v) c w)
  unfolding write_variant
  validate_and_write-Checked info t node v c w known fits =
      elim (Result-cases (validate_value_for_node r info v)) [
        | inl (e, p) ↦ inl (not_valid e, inl (e, p, refl), rw p refl)
        | inr (_, p) ↦ elim (Result-cases (convert_value_to_opcua_type r info v)) [
          | inl (e, q) ↦ inl (not_converted e, inr (inl (e, q, refl)), rw (p, q) refl)
          | inr (x, q) ↦ elim (Bool-cases (wire.is_variant x)) [
            | inl s ↦ inr (x, p, convert_value-IsSent r info t v x known fits q, rw (p, q, s) refl)
            | inr s ↦ inl (no_variant, inr (inr (x, q, s, refl)), rw (p, q, s) refl)
          ]
        ]
      ]

  -- A write to a node whose type information was read and names one of the builtin data types of the
  -- standard namespace's identifiers: either the value was accepted by the validation and the
  -- request carries it in the Go type of the node, element by element for an array, or nothing was
  -- sent and the error is that of the validation or of the conversion, or that there is no variant.
  -- An integer at an integer type is sent as the same number; a Boolean, float, double, text or
  -- time at its own type as it is; for other pairs only the Go type is stated. (The hypothesis on
  -- the value: its numbers fit their Go types. Other data types are not covered.)
  pub write_node-Checked :
      (node : String) (v : Value) (c c1 : Client) (w w1 : W) (info : NodeTypeInfo) (t : Builtin)
      → is_connected c ≡ true
      → wire.is_node_id node ≡ true
      → get_node_type_info wire node c w ≡ (ok info, c1, w1)
      → builtin info.data_type.int_id ≡ some t
      → FitsAll v
      → Checked node v info t c1 w1 (write_node wire net r node v c w)
  unfolding write_node
  write_node-Checked node v c c1 w w1 info t up named typed known fits =
      rw (up, named)
        (subst (λ m. Checked node v info t c1 w1 (write_with_type wire net r node v m)) (sym typed)
          (validate_and_write-Checked info t node v c1 w1 known fits))
