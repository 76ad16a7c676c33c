-- ===== src/Base/Bits.antt =====
-- The exclusive or of two words of `w` bits fits `w` bits.
use Prim.Native.Nat.{ℕ, zero, suc, ◌/◌, ◌%◌, ◌^◌, ◌<◌, bit_xor, digits, differ, bit_xor-bitwise}
use native.Mathlib.Nat.{pow-suc}
use native.Mathlib.Omega.{arith}

differ_below : (limit x y : ℕ) → x < limit → y < limit → differ x y < limit
differ_below limit zero y p q = q
differ_below limit (suc x) zero p q = p
differ_below limit (suc x) (suc y) p q = differ_below limit x y (omega arith) (omega arith)

-- However many digits are written out.
digits-lt : (fuel w x y : ℕ) → x < 2 ^ w → y < 2 ^ w → digits (λ rest. rest) differ fuel x y < 2 ^ w
digits-lt zero w x y p q = q
digits-lt (suc fuel) w zero y p q = q
digits-lt (suc fuel) zero (suc x) y p q = absurd (omega arith)
digits-lt (suc fuel) (suc w) (suc x) y p q =
    let halves =
      digits-lt fuel w (suc x / 2) (y / 2) (omega (arith, pow-suc 2 w))
        (omega (arith, pow-suc 2 w)) in
    let lowest = differ_below 2 (suc x % 2) (y % 2) (omega arith) (omega arith) in
    omega (arith, halves, lowest, pow-suc 2 w)

pub bit_xor-lt : (w a b : ℕ) → a < 2 ^ w → b < 2 ^ w → bit_xor a b < 2 ^ w
bit_xor-lt w a b p q = rw bit_xor-bitwise (digits-lt a w a b p q)
