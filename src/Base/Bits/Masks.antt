-- ===== src/Base/Bits/Masks.antt =====
-- `x & (2^k - 1)`, `x & ~(2^k - 1)` and the power-of-two test `(x & (x - 1)) == 0`.
use Prim.Native.Nat.{ℕ, zero, suc, ◌+◌, ◌-◌, ◌*◌, ◌/◌, ◌%◌, ◌^◌, ◌≤◌, ◌<◌, bit_and}
use mathlib.Core.Path.{◌≡◌, refl, ap, ◌∙◌}
use mathlib.Core.Logic.{◌≢◌}
use native.Mathlib.Nat.{le_refl, pow-suc, one-le-pow, sub-zero, pow-le-pow_right}
use native.Mathlib.Nat.{mul-add-mod_self_right, mod-eq_of_lt, div-add-mod'}
use native.Mathlib.Omega.{arith}
use native.Mathlib.Decide.{ℕ_discrete, dec_lt}
use jellybean.Base.Bits.Digits.{bit_and_step}

zero_mask_below : (bound x : ℕ) → x ≤ bound → bit_and x 0 ≡ 0
zero_mask_below bound zero le = refl
zero_mask_below zero (suc x) le = absurd (omega arith)
zero_mask_below (suc bound) (suc x) le =
    omega (zero_mask_below bound (suc x / 2) (omega arith), bit_and_step (suc x) 0, arith)

pub bit_and-zero : (a : ℕ) → bit_and a 0 ≡ 0
bit_and-zero x = zero_mask_below x x (le_refl x)

pub two-pow-suc : (k : ℕ) → 2 ^ suc k ≡ 2 * 2 ^ k
two-pow-suc k = omega (arith, pow-suc 2 k)

pub two-pow-pos : (k : ℕ) → 0 < 2 ^ k
two-pow-pos k = one-le-pow k 2 (omega arith)

-- The remainder by an even number, one digit at a time.
mod-double : (a m : ℕ) → 0 < m → a % (2 * m) ≡ 2 * (a / 2 % m) + a % 2
mod-double a m pos =
    ap (λ (t : ℕ). t % (2 * m)) split
    ∙ mul-add-mod_self_right (a / 2 / m) (2 * m) (2 * (a / 2 % m) + a % 2)
    ∙ mod-eq_of_lt (grind arith)
  where
    split : a ≡ a / 2 / m * (2 * m) + (2 * (a / 2 % m) + a % 2)
    split = omega (arith, ap (λ (t : ℕ). 2 * t) (div-add-mod' (a / 2) m))

-- A mask of `k` low ones takes the remainder by `2 ^ k`.
pub bit_and_mask : (k a : ℕ) → bit_and a (2 ^ k - 1) ≡ a % 2 ^ k
bit_and_mask zero a = omega (arith, bit_and-zero a)
bit_and_mask (suc k) a = rw two-pow-suc (
    omega (
      arith,
      two-pow-pos k,
      bit_and_step a (2 * 2 ^ k - 1),
      mod-double a (2 ^ k) (two-pow-pos k),
      ap (bit_and (a / 2)) half,
      bit_and_mask k (a / 2),
    ))
  where
    half : (2 * 2 ^ k - 1) / 2 ≡ 2 ^ k - 1
    half = omega (arith, two-pow-pos k)

-- The complement of that mask, in a word of `w` bits, clears the low `k` bits.
pub bit_and_not_mask :
    (k w a : ℕ) → k ≤ w → a < 2 ^ w → bit_and a (2 ^ w - 1 - (2 ^ k - 1)) ≡ a - a % 2 ^ k
bit_and_not_mask zero w a le lt =
    ap (bit_and a) (sub-zero (2 ^ w - 1)) ∙ bit_and_mask w a ∙ omega (arith, mod-eq_of_lt lt)
bit_and_not_mask (suc k) zero a le lt = absurd (omega arith)
bit_and_not_mask (suc k) (suc w) a le lt =
    rw (two-pow-suc w, two-pow-suc k)
      (omega (
        arith,
        two-pow-pos k,
        two-pow-suc w,
        pow-le-pow_right {n = 2} (omega arith) {i = k} {j = w} (omega arith),
        bit_and_step a (2 * 2 ^ w - 1 - (2 * 2 ^ k - 1)),
        mod-double a (2 ^ k) (two-pow-pos k),
        ap (bit_and (a / 2)) half,
        bit_and_not_mask k w (a / 2) (omega arith) (omega (arith, two-pow-suc w)),
      ))
  where
    half : (2 * 2 ^ w - 1 - (2 * 2 ^ k - 1)) / 2 ≡ 2 ^ w - 1 - (2 ^ k - 1)
    half = omega (arith, two-pow-pos k, two-pow-pos w)

bit_and_self_below : (n a : ℕ) → a ≤ n → bit_and a a ≡ a
bit_and_self_below n zero h = refl
bit_and_self_below zero (suc a) h = absurd (omega arith)
bit_and_self_below (suc n) (suc a) h =
    omega (arith, bit_and_step (suc a) (suc a), bit_and_self_below n (suc a / 2) (omega arith))

pow_two_below : (n a : ℕ) → a ≤ n → a ≢ 0 → bit_and a (a - 1) ≡ 0 → (k : ℕ) × (a ≡ 2 ^ k)
pow_two_below zero a le ne h = absurd (ne (omega arith))
pow_two_below (suc n) a le ne h = elim (ℕ_discrete (a % 2) 0) [
  | yes even ↦
      let e : (a - 1) / 2 ≡ a / 2 - 1 = omega arith in
      let (k, p) =
        pow_two_below n (a / 2) (omega arith) (omega arith)
          (omega (arith, bit_and_step a (a - 1), ap (bit_and (a / 2)) e)) in
      (suc k, omega (arith, two-pow-suc k))
  | no odd ↦ (
    0,
    omega (
      arith,
      bit_and_step a (a - 1),
      ap (bit_and (a / 2)) (let e : (a - 1) / 2 ≡ a / 2 = omega arith in e),
      bit_and_self_below (a / 2) (a / 2) (omega arith),
    ),
  )
]

-- What passes the test of the source is a power of two.
pub pow_two_of_test : (a : ℕ) → a ≢ 0 → bit_and a (a - 1) ≡ 0 → (k : ℕ) × (a ≡ 2 ^ k)
pow_two_of_test a ne h = pow_two_below a a (omega arith) ne h

-- A power of two by the test that the source makes, in a word of 64 bits.
pub record IsPowerOfTwo (a : ℕ) : Type 0 where
  pub nonzero : a ≢ 0
  pub one_bit : bit_and a (a - 1) ≡ 0
  pub small : a ≤ 2 ^ 63

exponent-le : (k : ℕ) → 2 ^ k ≤ 2 ^ 63 → k ≤ 63
exponent-le k h = elim (dec_lt 63 k) [
  | yes big ↦ absurd (omega (arith, pow-le-pow_right {n = 2} (omega arith) {i = 64} {j = k} big))
  | no small ↦ omega arith
]

-- Its exponent fits the word.
pub exponent : (a : ℕ) → IsPowerOfTwo a → (k : ℕ) × (a ≡ 2 ^ k) × (k ≤ 63)
exponent a ok =
    let (k, e) = pow_two_of_test a ok.nonzero ok.one_bit in
    (k, e, exponent-le k (omega (arith, e, ok.small)))
