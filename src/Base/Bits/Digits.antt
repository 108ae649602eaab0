-- ===== src/Base/Bits/Digits.antt =====
-- The recursion of the native bit operations, a binary digit at a time and without its fuel.
use mathlib.Core.Path.{◌≡◌, refl, ap, ◌∙◌}
use Prim.Native.Nat.{bitwise, differ, digits, bit_xor-bitwise, bit_and-bitwise}
use Prim.Native.Nat.{◌<◌, ◌≤◌, ◌%◌, ◌/◌, ◌*◌, ◌+◌, ◌-◌, min, bit_xor, bit_and, ℕ, suc, zero}
use native.Mathlib.Omega.{arith}

module _ (alone : ℕ → ℕ) (op : ℕ → ℕ → ℕ) where
  -- A unit of fuel beyond the left operand is not burnt.
  one_more : (n x y : ℕ) → x ≤ n → digits alone op (suc n) x y ≡ digits alone op n x y
  one_more zero zero y le = refl
  one_more (suc n) zero y le = refl
  one_more zero (suc x) y le = absurd (omega arith)
  one_more (suc n) (suc x) y le = rw (one_more n (suc x / 2) (y / 2) (omega arith))

  own_fuel : (spare n x y : ℕ) → n ≡ spare + x → digits alone op n x y ≡ bitwise alone op x y
  own_fuel zero n x y e = ap (λ t. digits alone op t x y) (omega arith)
  own_fuel (suc spare) zero x y e = absurd (omega arith)
  own_fuel (suc spare) (suc n) x y e =
      one_more n x y (omega arith) ∙ own_fuel spare n x y (omega arith)

  first_digit :
      (x y : ℕ)
      → bitwise alone op (suc x) y
        ≡ op (suc x % 2) (y % 2) + 2 * bitwise alone op (suc x / 2) (y / 2)
  first_digit x y = omega (arith, own_fuel (x - suc x / 2) x (suc x / 2) (y / 2) (omega arith))

-- `differ` on two bits adds them without carry.
differ_lem : (x y : ℕ) → y < 2 → x < 2 → differ x y ≡ (x + y) % 2
differ_lem zero y lt lt' = omega arith
differ_lem (suc zero) zero lt lt' = refl
differ_lem (suc zero) (suc zero) lt lt' = refl
differ_lem (suc zero) (suc (suc y)) lt lt' = absurd (omega arith)
differ_lem (suc (suc x)) y lt lt' = absurd (omega arith)

pub bit_and_step : (a b : ℕ) → bit_and a b ≡ bit_and (a / 2) (b / 2) * 2 + min (a % 2) (b % 2)
bit_and_step zero y = simp bit_and-bitwise (omega arith)
bit_and_step (suc x) y = omega (
  arith,
  first_digit (λ t. 0) min x y,
  bit_and-bitwise (suc x / 2) (y / 2),
  bit_and-bitwise (suc x) y,
)

pub bit_xor_step : (a b : ℕ) → bit_xor a b ≡ bit_xor (a / 2) (b / 2) * 2 + (a + b) % 2
bit_xor_step zero y = simp bit_xor-bitwise (omega arith)
bit_xor_step (suc x) y = omega (
  arith,
  differ_lem (suc x % 2) (y % 2) (omega arith) (omega arith),
  first_digit (λ t. t) differ x y,
  bit_xor-bitwise (suc x / 2) (y / 2),
  bit_xor-bitwise (suc x) y,
)
