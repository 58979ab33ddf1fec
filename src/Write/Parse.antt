-- ===== src/Write/Parse.antt =====
-- `parseStringToInt64`, `parseStringToUInt64` and `parseStringToFloat64` of
-- internal/opcua/client.go, with the base ten of strconv.ParseInt and strconv.ParseUint.
use Prim.Native.Char.{code}
use Prim.Native.String.{[], ◌∷◌}
use opcua_mcp.Prelude.{
  ℕ, ◌+◌, ◌*◌, ◌-◌, String, ◌&&◌, Option, none, some, ltb, leb, nat_beq, if◌then◌else◌,
}
use opcua_mcp.Prelude.Int.{ℤ, pos, neg}
use opcua_mcp.Prelude.Text.{is_empty, trim_space}
use opcua_mcp.Prelude.Result.{Result, err, or_err}
use opcua_mcp.Write.Runtime.{Runtime}
use opcua_mcp.Write.Cast.{half64}

-- What the errors of the write path tell apart.
pub data Error : Type 0 where
  cannot_convert out_of_range bad_text : Error
  custom_type : ℕ → ℕ → Error
  not_an_array not_writable wrong_type : Error
  wrong_length : ℕ → ℕ → Error
  unsupported_element : ℕ → Error
  at_element : ℕ → Error → Error

unfoldable pub digits : ℕ → String → Option ℕ
digits n [] = some n
digits n (ch ∷ s) =
    let c = code ch in
    let rest = digits (n * 10 + (c - 48)) s in if leb 48 c && leb c 57 then rest else none

-- strconv.ParseUint(s, 10, 64)
unfoldable pub parse_uint : String → Option ℕ
unfolding digits
parse_uint [] = none
parse_uint (c ∷ s) = elim (digits 0 (c ∷ s)) [
  | none ↦ none
  | some n ↦ if ltb n (2 * half64) then some n else none
]

abbrev below_cutoff : Option ℕ → Option ℤ
below_cutoff none = none
below_cutoff (some n) = if ltb n half64 then some (pos n) else none

abbrev above_cutoff : Option ℕ → Option ℤ
above_cutoff none = none
above_cutoff (some n) = if leb n half64 then some (neg n) else none

-- strconv.ParseInt(s, 10, 64)
unfoldable pub parse_int : String → Option ℤ
unfolding parse_uint
parse_int [] = none
parse_int (c ∷ s) =
    if nat_beq (code c) b'+'
    then below_cutoff (parse_uint s)
    else if nat_beq (code c) b'-'
    then above_cutoff (parse_uint s)
    else below_cutoff (parse_uint (c ∷ s))

unfoldable pub parse_string_to_int64 : String → Result Error ℤ
unfolding parse_int trim_space
parse_string_to_int64 s =
    let t = trim_space s in if is_empty t then err bad_text else or_err (parse_int t) bad_text

unfoldable pub parse_string_to_uint64 : String → Result Error ℕ
unfolding parse_uint trim_space
parse_string_to_uint64 s =
    let t = trim_space s in if is_empty t then err bad_text else or_err (parse_uint t) bad_text

unfoldable pub parse_string_to_float64 : Runtime → String → Result Error ℕ
unfolding trim_space
parse_string_to_float64 r s =
    let t = trim_space s in if is_empty t then err bad_text else or_err (r.parse_float t) bad_text
