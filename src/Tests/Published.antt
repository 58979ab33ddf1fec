-- ===== src/Tests/Published.antt =====
-- The theorem on the published values in the store, for one Int32.
use opcua_mcp.Prelude.{ℕ}
use opcua_mcp.Prelude.Int.{pos}
use opcua_mcp.Prelude.Dict
use opcua_mcp.Normalize.{Decoded, plain, plain_int32}

-- Floats of 32 bits, widened to nothing.
abbrev widen : ℕ → ℕ
widen b = 0

abbrev read : Decoded
read = plain (plain_int32 (pos 7))
