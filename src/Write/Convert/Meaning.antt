-- ===== src/Write/Convert/Meaning.antt =====
-- What `convertScalarValue` and `convertArrayValue` of internal/opcua/client.go make of a value, as a
-- table that does not follow their steps.
use opcua_mcp.Prelude.{
  ◌≡◌, ◌+◌, ℕ, Bool, true, false, Option, none, some, sym, subst, ◌∙◌, arith, if◌then◌else◌,
  Option-cases, inl, inr,
}
use opcua_mcp.Prelude.Int.{ℤ}
use opcua_mcp.Prelude.Result.{Result, ok, ok_inj}
use opcua_mcp.Value.{
  Value, Values, bool, float32, float64, string, time, array, done, item, number, Fits,
}
use opcua_mcp.Write.Runtime.{Runtime}
use opcua_mcp.Write.Parse.{Error}
use opcua_mcp.Write.NodeType.{
  NodeTypeInfo, Builtin, type_boolean, type_float, type_double, type_string, type_date_time,
  builtin,
}
use opcua_mcp.Write.Convert.{
  convert_to_boolean, convert_to_float, convert_to_double, convert_to_string, convert_to_date_time,
  convert_builtin, convert_scalar_value, convert_elements,
}
use opcua_mcp.Write.Convert.Integers.{integer_spec, convert_builtin-integer}
use opcua_mcp.Write.Convert.Types.{cons_element-eq-ok}

-- A value that is no integer and is of the data type, or a truth value as a text.
abbrev kept_spec : Builtin → Value → Option Value
kept_spec type_boolean (bool b) = some (bool b)
kept_spec type_float (float32 b) = some (float32 b)
kept_spec type_double (float64 b) = some (float64 b)
kept_spec type_string (string s) = some (string s)
kept_spec type_string (bool b) = some (string (if b then "true" else "false"))
kept_spec type_date_time (time t) = some (time t)
kept_spec _ _ = none

-- What a value must become: an integer, at an integer type, the same number; other values, of the
-- data type already, themselves. The rest of the table says nothing.
abbrev IsResult : Option (Result Error Value) → Value → Type 0
IsResult none x = Unit
IsResult (some m) x = m ≡ ok x

abbrev IsKept : Option Value → Value → Type 0
IsKept none x = Unit
IsKept (some y) x = x ≡ y

abbrev IsNumber : Builtin → Option ℤ → Value → Type 0
IsNumber t none x = Unit
IsNumber t (some z) x = IsResult (integer_spec t z) x

abbrev pub Means : Builtin → Value → Value → Type 0
Means t v x = IsNumber t (number v) x × IsKept (kept_spec t v) x

abbrev pub AllMean : Builtin → Values → Values → Type 0
AllMean t (item v vs) (item x xs) = Means t v x × AllMean t vs xs
AllMean t done done = Unit
AllMean t _ _ = ◌≡◌ {A = Bool} true false

-- What Go's types guarantee of the numbers in a value.
abbrev pub AllFit : Values → Type 0
AllFit done = Unit
AllFit (item v vs) = Fits v × AllFit vs

abbrev pub FitsAll : Value → Type 0
FitsAll (array vs) = AllFit vs
FitsAll v = Fits v

pub FitsAll-Fits : (v : Value) → FitsAll v → Fits v
FitsAll-Fits (array vs) f = tt
FitsAll-Fits v f = f

module _ (r : Runtime) where
  convert_builtin-IsKept :
      (t : Builtin) (v x : Value) → convert_builtin r t v ≡ ok x → IsKept (kept_spec t v) x
  unfolding convert_builtin convert_to_boolean convert_to_float convert_to_double convert_to_string
      convert_to_date_time
  convert_builtin-IsKept type_boolean (bool b) x h = ground arith
  convert_builtin-IsKept type_float (float32 b) x h = ground arith
  convert_builtin-IsKept type_double (float64 b) x h = ground arith
  convert_builtin-IsKept type_string (string s) x h = ground arith
  convert_builtin-IsKept type_string (bool b) x h = ground arith
  convert_builtin-IsKept type_date_time (time t) x h = ground arith
  convert_builtin-IsKept _ _ x h = tt

  convert_builtin-IsNumber :
      (t : Builtin) (v x : Value) → Fits v → convert_builtin r t v ≡ ok x → IsNumber t (number v) x
  convert_builtin-IsNumber t v x f h = elim (Option-cases (number v)) [
    | inl p ↦ rw p tt
    | inr (z, p) ↦ elim (Option-cases (integer_spec t z)) [
      | inl q ↦ rw (p, q) tt
      | inr (m, q) ↦ rw (p, q) (sym (convert_builtin-integer r t v z q p f) ∙ h)
    ]
  ]

  pub convert_scalar_value-Means :
      (info : NodeTypeInfo) (t : Builtin) (v x : Value)
      → builtin info.data_type.int_id ≡ some t
      → Fits v
      → convert_scalar_value r info v ≡ ok x
      → Means t v x
  unfolding convert_scalar_value
  convert_scalar_value-Means info t v x b f h =
      let e : convert_builtin r t v ≡ ok x = ground (arith, h, b) in
      (convert_builtin-IsNumber t v x f e, convert_builtin-IsKept t v x e)

  pub convert_elements-Means :
      (info : NodeTypeInfo) (t : Builtin) (i : ℕ) (vs xs : Values)
      → builtin info.data_type.int_id ≡ some t
      → AllFit vs
      → convert_elements r info i vs ≡ ok xs
      → AllMean t vs xs
  unfolding convert_elements
  convert_elements-Means info t i done xs b f h = subst (AllMean t done) (ok_inj h) tt
  convert_elements-Means info t i (item v vs) xs b f h =
      let (x, us, p, q, e) =
        cons_element-eq-ok i (convert_scalar_value r info v) (convert_elements r info (i + 1) vs)
          h in
      rw e (
        convert_scalar_value-Means info t v x b f.0 p,
        convert_elements-Means info t (i + 1) vs us b f.1 q,
      )
