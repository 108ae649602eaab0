-- ===== src/Telemetry/Histogram/Bucket.antt =====
-- `bucket_for` of include/jellybean/telemetry/metrics.hpp.
use jellybean.Base.{ℕ, zero, suc, ◌-◌, ◌/◌, ◌^◌, ◌≤◌, ◌<◌, ◌≡◌, refl, ap, arith}
use jellybean.Base.Bits.{two-pow-suc}
use jellybean.Telemetry.Histogram.{bit_width, bucket_for}

-- `w` is the number of binary digits of `x`, and no more than `fuel`.
abbrev pub Brackets : ℕ → ℕ → ℕ → Type 0
Brackets fuel w x = (0 < w) × (w ≤ fuel) × (2 ^ (w - 1) ≤ x) × (x < 2 ^ w)

pow_pred : (w : ℕ) → 2 ^ (suc w - 1) ≡ 2 ^ w
pow_pred w = ap (λ t. 2 ^ t) (omega arith)

Brackets-double : (fuel w x : ℕ) → Brackets fuel w (x / 2) → Brackets (suc fuel) (suc w) x
Brackets-double fuel zero x b = absurd (omega (arith, b.0))
Brackets-double fuel (suc w) x b = (
  omega arith,
  omega (arith, b.1),
  omega (arith, b.2, two-pow-suc w, pow_pred w, pow_pred (suc w)),
  omega (arith, b.3, two-pow-suc (suc w)),
)

bit_width-zero : (fuel : ℕ) → bit_width fuel 0 ≡ 0
unfolding bit_width
bit_width-zero zero = refl
bit_width-zero (suc fuel) = refl

bit_width-suc : (fuel x : ℕ) → 0 < x → bit_width (suc fuel) x ≡ suc (bit_width fuel (x / 2))
unfolding bit_width
bit_width-suc fuel x pos = ground arith

Brackets-one : (fuel w : ℕ) → w ≡ 0 → Brackets (suc fuel) (suc w) 1
Brackets-one fuel w e = rw e (omega arith, omega arith, omega arith, omega arith)

bit_width-Brackets : (fuel x : ℕ) → 0 < x → x < 2 ^ fuel → Brackets fuel (bit_width fuel x) x
bit_width-Brackets zero x pos lt = absurd (omega arith)
bit_width-Brackets (suc fuel) zero pos lt = absurd (omega arith)
bit_width-Brackets (suc fuel) (suc zero) pos lt =
    rw (bit_width-suc fuel 1 pos) (Brackets-one fuel (bit_width fuel 0) (bit_width-zero fuel))
bit_width-Brackets (suc fuel) (suc (suc x)) pos lt = rw (bit_width-suc fuel (suc (suc x)) pos) (
    Brackets-double fuel (bit_width fuel (suc (suc x) / 2)) (suc (suc x))
      (bit_width-Brackets fuel (suc (suc x) / 2) (omega arith) (omega (arith, two-pow-suc fuel))))

bucket_for_lem : (l w : ℕ) → 0 < l → w ≤ 64 → w ≡ bit_width 64 l → bucket_for l ≡ w
unfolding bucket_for
bucket_for_lem l w pos le e = rw (← e) (ground arith)

-- A positive latency below 2^64 lies in the bucket of its number of binary digits, between 1 and 64.
pub bucket_for-Brackets : (l : ℕ) → 0 < l → l < 2 ^ 64 → Brackets 64 (bucket_for l) l
bucket_for-Brackets l pos lt =
    let b = bit_width-Brackets 64 l pos lt in rw (bucket_for_lem l (bit_width 64 l) pos b.1 refl) b

pub bucket_for_zero : bucket_for 0 ≡ 0
unfolding bucket_for
bucket_for_zero = refl
