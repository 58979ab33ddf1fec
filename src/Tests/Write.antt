-- ===== src/Tests/Write.antt =====
-- The theorems on the conversions of a write, with a runtime that knows few texts.
use opcua_mcp.Prelude.{ℕ, ◌≡◌, refl, true, false, [], none, arith, leb, not, nat_beq}
use opcua_mcp.Prelude.Int.{pos}
use opcua_mcp.Prelude.Result.{err, is_ok}
use opcua_mcp.Value.{Values, int, int16, int32, slice, done, item, go_int16, count}
use opcua_mcp.Write.Runtime.{Runtime}
use opcua_mcp.Write.Parse.{out_of_range}
use opcua_mcp.Write.NodeType.{NodeTypeInfo, type_int16, type_byte}
use opcua_mcp.Write.Convert.{
  convert_builtin, convert_array_value, convert_scalar_value, convert_to_int16,
}
use opcua_mcp.Write.Validate.{validate_builtin, is_in_range}
use opcua_mcp.Write.Convert.Integers.{convert_builtin-integer}
use opcua_mcp.Write.Convert.Types.{AllOf, convert_array_value-type}
use opcua_mcp.Write.Validate.Agreement.{validate-convert}

abbrev pub runtime : Runtime
runtime = record {
  widen = λ b. b;
  shorten = λ b. b;
  float_of_int = λ z. 0;
  int64_of = λ b. pos b;
  uint64_of = λ b. b;
  is_nonzero = λ b. not (nat_beq b 0);
  is_negative = λ b. leb 9223372036854775808 b;
  is_nonnegative = λ b. not (leb 9223372036854775808 b);
  float_sub = λ a b. a;
  float_mul = λ a b. a;
  to_lower = λ s. s;
  parse_float = λ s. none;
  parse_time = λ f s. none;
  decode_base64 = λ s. none;
  format_d = λ z. "";
  format_g = λ b. "";
  format_v = λ v. "";
  new_guid = λ s. none;
}

abbrev info : NodeTypeInfo
info = record {
  data_type = record { namespace = 0; int_id = 4 };
  value_rank = pos 1;
  array_dimensions = [];
  is_array = true;
  is_scalar = false;
  access_level = 3;
  user_access_level = 3;
  is_writable = true;
  is_user_writable = true;
}

convert_builtin-integer_example :
    convert_builtin runtime type_byte (int (pos 256)) ≡ err out_of_range
convert_builtin-integer_example =
    convert_builtin-integer runtime type_byte (int (pos 256)) (pos 256) refl refl
      (omega arith, omega arith)

convert_array_value-type_example :
    (ws : Values) × (slice go_int16 (item (int16 (pos 7)) done) ≡ slice go_int16 ws)
    × AllOf go_int16 ws
    × (count ws ≡ 1)
unfolding convert_array_value convert_scalar_value convert_to_int16
convert_array_value-type_example =
    convert_array_value-type runtime info type_int16 (item (int32 (pos 7)) done)
      (slice go_int16 (item (int16 (pos 7)) done)) refl refl

nonnegative : (b : ℕ) → runtime.is_nonnegative b ≡ true → runtime.is_negative b ≡ false
nonnegative b h = ground arith

validate-convert_example : is_ok (convert_builtin runtime type_byte (int (pos 200))) ≡ true
unfolding validate_builtin is_in_range
validate-convert_example =
    validate-convert runtime nonnegative type_byte (int (pos 200)) (omega arith, omega arith) refl
      refl refl
