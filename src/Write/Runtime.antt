-- ===== src/Write/Runtime.antt =====
-- What the conversions take from the processor, from Go's formatting and text tables and from
-- gopcua: arguments of the model. A float is its bit pattern.
use opcua_mcp.Prelude.{ℕ, String, Bool, List, Option}
use opcua_mcp.Prelude.Int.{ℤ}
use opcua_mcp.Value.{Value}

pub record Runtime : Type 0 where
  -- float64(x) of a float32, float32(x) of a float64, float64(x) of an integer
  pub widen : ℕ → ℕ
  pub shorten : ℕ → ℕ
  pub float_of_int : ℤ → ℕ
  -- int64(x) and uint64(x) of a float64
  pub int64_of : ℕ → ℤ
  pub uint64_of : ℕ → ℕ
  -- x != 0, x < 0 and x >= 0
  pub is_nonzero : ℕ → Bool
  pub is_negative : ℕ → Bool
  pub is_nonnegative : ℕ → Bool
  pub float_sub : ℕ → ℕ → ℕ
  pub float_mul : ℕ → ℕ → ℕ
  -- strings.ToLower, strconv.ParseFloat, time.Parse(layout, s), base64.StdEncoding.DecodeString
  pub to_lower : String → String
  pub parse_float : String → Option ℕ
  pub parse_time : String → String → Option ℤ
  pub decode_base64 : String → Option (List ℕ)
  -- fmt.Sprintf with %d, %g and %v
  pub format_d : ℤ → String
  pub format_g : ℕ → String
  pub format_v : Value → String
  -- ua.NewGUID, `none` for nil
  pub new_guid : String → Option (List ℕ)
