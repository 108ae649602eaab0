-- ===== src/Proto/Wire/Align.antt =====
-- `align_up`: the least multiple of a power of two that is not below the value.
use jellybean.Base.{ℕ, ◌+◌, ◌-◌, ◌*◌, ◌%◌, ◌/◌, ◌^◌, ◌≤◌, ◌<◌, ◌≡◌, ◌∙◌, ap, ap₂, arith, bit_and}
use jellybean.Base.Bits.{bit_and_not_mask, IsPowerOfTwo, exponent, two-pow-pos}
use jellybean.Base.Words.{sub64, add64, not64}
use native.Mathlib.Nat.{div-add-mod', mod-lt, mul-mod_left}
use jellybean.Proto.Wire.{align_up}

-- In numbers without a wrap: round down the value raised by one less than the alignment.
align_up_pow :
    (k value : ℕ)
    → k ≤ 63
    → value + 2 ^ k ≤ 2 ^ 64
    → align_up value (2 ^ k) ≡ value + 2 ^ k - 1 - (value + 2 ^ k - 1) % 2 ^ k
unfolding align_up
align_up_pow k value le room =
    ap₂ bit_and raised mask
    ∙ bit_and_not_mask k 64 (value + 2 ^ k - 1) (omega arith) (omega (arith, two-pow-pos k))
  where
    raised : sub64 (add64 value (2 ^ k)) 1 ≡ value + 2 ^ k - 1
    raised = omega (arith, two-pow-pos k)

    mask : not64 (sub64 (2 ^ k) 1) ≡ 2 ^ 64 - 1 - (2 ^ k - 1)
    mask = omega (arith, two-pow-pos k)

round_down : (n a : ℕ) → 0 < a → (n - n % a) % a ≡ 0
round_down n a pos =
    ap (λ (t : ℕ). t % a) (let e : n - n % a ≡ n / a * a = omega (arith, div-add-mod' n a) in e)
    ∙ mul-mod_left (n / a) a

-- With a power of two for the alignment, and no wrap of the sum, `align_up` gives the least
-- multiple of the alignment that is not below the value.
pub align_up-IsLeast :
    (value alignment : ℕ)
    → IsPowerOfTwo alignment
    → value + alignment ≤ 2 ^ 64
    → (value ≤ align_up value alignment)
      × (align_up value alignment < value + alignment)
      × (align_up value alignment % alignment ≡ 0)
align_up-IsLeast value alignment ok room =
    let (k, e, k_le) = exponent alignment ok in
    let exact = ap (align_up value) e ∙ align_up_pow k value k_le (omega arith) in
    let rem = mod-lt (value + 2 ^ k - 1) (two-pow-pos k) in
    (
      omega (arith, exact, rem),
      omega (arith, exact, two-pow-pos k),
      ap₂ (λ (s t : ℕ). s % t) exact e ∙ round_down (value + 2 ^ k - 1) (2 ^ k) (two-pow-pos k),
    )
