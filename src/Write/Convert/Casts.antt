-- ===== src/Write/Convert/Casts.antt =====
-- The wrapping conversions keep a number that fits the target type.
use native.Mathlib.Nat.{mod-eq_of_lt}
use opcua_mcp.Prelude.{ℕ, ◌*◌, ◌-◌, ◌<◌, ◌≡◌, ◌&&◌, arith, if◌then◌else◌}
use opcua_mcp.Prelude.Int.{ℤ, pos, negsuc, neg, lez, pos_part}
use opcua_mcp.Prelude.Result.{Result, ok, err}
use opcua_mcp.Value.{Between}
use opcua_mcp.Write.Cast.{wrap_signed, wrap_unsigned}
use opcua_mcp.Write.Parse.{Error, out_of_range}
use opcua_mcp.Write.Convert.{in_signed, in_unsigned}

pub wrap_signed_lem :
    (half : ℕ) (z : ℤ) → 0 < half → Between (neg half) (pos (half - 1)) z → wrap_signed half z ≡ z
wrap_signed_lem half (pos n) p b = ground (arith, mod-eq_of_lt {n = n} {m = 2 * half})
wrap_signed_lem half (negsuc n) p b = ground (arith, mod-eq_of_lt {n = n} {m = 2 * half})

pub wrap_unsigned_lem :
    (m : ℕ) (z : ℤ) → 0 < m → Between (pos 0) (pos (m - 1)) z → wrap_unsigned m z ≡ pos_part z
wrap_unsigned_lem m (pos n) p b = ground (arith, mod-eq_of_lt {n = n} {m = m})
wrap_unsigned_lem m (negsuc n) p b = ground arith

-- What a conversion to a type with the values from lo to hi should do with an integer.
abbrev pub narrowed {ℓ} : {A : Type ℓ} → ℤ → ℤ → (ℤ → A) → ℤ → Result Error A
narrowed lo hi box z = if lez lo z && lez z hi then ok (box z) else err out_of_range

pub in_signed_lem :
    (half : ℕ) (z : ℤ)
    → 0 < half
    → in_signed half z ≡ narrowed (neg half) (pos (half - 1)) (λ x. x) z
unfolding in_signed
in_signed_lem half z p = ground (arith, wrap_signed_lem half z p)

pub in_unsigned_lem :
    (m : ℕ) (z : ℤ) → 0 < m → in_unsigned m z ≡ narrowed (pos 0) (pos (m - 1)) pos_part z
unfolding in_unsigned
in_unsigned_lem m z p = ground (arith, wrap_unsigned_lem m z p)
