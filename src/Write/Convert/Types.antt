-- ===== src/Write/Convert/Types.antt =====
-- The static types of converted values: what `reflect.Value.Set` and the wire encoding rely on.
use opcua_mcp.Prelude.{ℕ, suc, ◌+◌, ap, ◌≡◌, refl, some, arith, nat_beq}
use opcua_mcp.Prelude.Result.{Result, ok, err, >>=-eq-ok, if_err-eq-ok}
use opcua_mcp.Value.{GoType, Value, Values, array, slice, done, item, type_of, count}
use opcua_mcp.Write.Runtime.{Runtime}
use opcua_mcp.Write.Parse.{Error}
use opcua_mcp.Write.NodeType.{NodeTypeInfo, Builtin, type_boolean, builtin, builtin_scalar_go_type}
use opcua_mcp.Write.Convert.{
  convert_builtin, convert_scalar_value, cons_element, convert_elements, convert_array_of,
  convert_array_value,
}

abbrev pub AllOf : GoType → Values → Type 0
AllOf g done = Unit
AllOf g (item v vs) = (type_of v ≡ some g) × AllOf g vs

pub cons_element-eq-ok :
    (i : ℕ) (m : Result Error Value) (rest : Result Error Values) {ws : Values}
    → cons_element i m rest ≡ ok ws
    → (w : Value) × (us : Values) × (m ≡ ok w) × (rest ≡ ok us) × (ws ≡ item w us)
cons_element-eq-ok i (err e) rest h = cc
cons_element-eq-ok i (ok w) (err e) h = cc
cons_element-eq-ok i (ok w) (ok us) h = (w, us, refl, refl, ground arith)

module _ (r : Runtime) where
  pub convert_builtin-type :
      (t : Builtin) (v w : Value)
      → convert_builtin r t v ≡ ok w
      → type_of w ≡ some (builtin_scalar_go_type t)
  unfolding convert_builtin
  convert_builtin-type type_boolean v w h = ground arith
  convert_builtin-type _ v w h = ground arith

  pub convert_scalar_value-type :
      (info : NodeTypeInfo) (t : Builtin) (v w : Value)
      → builtin info.data_type.int_id ≡ some t
      → convert_scalar_value r info v ≡ ok w
      → type_of w ≡ some (builtin_scalar_go_type t)
  unfolding convert_scalar_value
  convert_scalar_value-type info t v w b h = ground (arith, convert_builtin-type t v w)

  pub convert_elements-type :
      (info : NodeTypeInfo) (t : Builtin) (i : ℕ) (vs ws : Values)
      → builtin info.data_type.int_id ≡ some t
      → convert_elements r info i vs ≡ ok ws
      → AllOf (builtin_scalar_go_type t) ws × (count ws ≡ count vs)
  unfolding convert_elements
  convert_elements-type info t i done ws b h = ground arith
  convert_elements-type info t i (item v vs) ws b h =
      let (w, us, p, q, e) =
        cons_element-eq-ok i (convert_scalar_value r info v) (convert_elements r info (i + 1) vs)
          h in
      let (types, counts) = convert_elements-type info t (i + 1) vs us b q in
      rw e ((convert_scalar_value-type info t v w b p, types), ap suc counts)

  convert_array_of-eq-ok :
      (info : NodeTypeInfo) (t : Builtin) (vs : Values) (w : Value)
      → convert_array_of r info (some t) vs ≡ ok w
      → (ws : Values) × (convert_elements r info 0 vs ≡ ok ws)
        × (w ≡ slice (builtin_scalar_go_type t) ws)
  unfolding convert_array_of
  convert_array_of-eq-ok info t vs w h =
      let (ws, p, q) = >>=-eq-ok (convert_elements r info 0 vs) _ h in (ws, p, ground arith)

  pub convert_array_value-eq-ok :
      (info : NodeTypeInfo) (t : Builtin) (vs : Values) (w : Value)
      → builtin info.data_type.int_id ≡ some t
      → convert_array_value r info (array vs) ≡ ok w
      → (ws : Values) × (convert_elements r info 0 vs ≡ ok ws)
        × (w ≡ slice (builtin_scalar_go_type t) ws)
  unfolding convert_array_value
  convert_array_value-eq-ok info t vs w b h =
      let (_, h') = if_err-eq-ok (nat_beq info.data_type.namespace 0) _ _ h in
      convert_array_of-eq-ok info t vs w (rw b at h')

  -- A write to an array node carries a slice whose static element type is the Go type of the
  -- node's data type, with every element of that type and none lost, so that no
  -- `reflect.Value.Set` of the loop can panic.
  pub convert_array_value-type :
      (info : NodeTypeInfo) (t : Builtin) (vs : Values) (w : Value)
      → builtin info.data_type.int_id ≡ some t
      → convert_array_value r info (array vs) ≡ ok w
      → (ws : Values) × (w ≡ slice (builtin_scalar_go_type t) ws)
        × AllOf (builtin_scalar_go_type t) ws
        × (count ws ≡ count vs)
  convert_array_value-type info t vs w b h =
      let (ws, p, q) = convert_array_value-eq-ok info t vs w b h in
      let (types, counts) = convert_elements-type info t 0 vs ws b p in (ws, q, types, counts)
