-- ===== src/Telemetry/Histogram/Percentile.antt =====
-- `percentile` of src/telemetry/metrics.cpp.
use jellybean.Base.{ℕ, zero, suc, ◌+◌, ◌-◌, ◌^◌, ◌≤◌, ◌<◌, ◌≡◌, refl, sym, ap, ◌∙◌, arith}
use jellybean.Base.{List, [], ◌∷◌, length, ltb, if◌then◌else◌, dec_lt}
use jellybean.Base.Words.{u64}
use jellybean.Telemetry.Histogram.{bucket_for, bucket_count, total_from, scan, percentile}
use jellybean.Telemetry.Histogram.Bucket.{bucket_for-Brackets, bucket_for_zero}
use jellybean.Telemetry.Histogram.Counts.{sum, count_before, count_before-all, IsHistogram}
use jellybean.Telemetry.Histogram.Scan.{
  IsFirst, total_from_lem, counts_from, Stops, scan-Stops, take-all,
}
use native.Mathlib.Nat.{pow-le-pow_right}

-- All latencies are words.
abbrev pub AllWords : List ℕ → Type 0
AllWords [] = Unit
AllWords (l ∷ ls) = (l < 2 ^ 64) × AllWords ls

-- How many of the latencies are below `bound`.
abbrev pub count_below : ℕ → List ℕ → ℕ
count_below bound [] = 0
count_below bound (l ∷ ls) = (if ltb l bound then 1 else 0) + count_below bound ls

two_pow_mono : (i j : ℕ) → i ≤ j → 2 ^ i ≤ 2 ^ j
two_pow_mono i j le = pow-le-pow_right {n = 2} (omega arith) {i = i} {j = j} le

before→below : (l n : ℕ) → l < 2 ^ 64 → bucket_for l < suc n → l < 2 ^ n
before→below zero n lt h = omega (arith, two_pow_mono 0 n (omega arith))
before→below (suc l) n lt h = omega (
  arith,
  (bucket_for-Brackets (suc l) (omega arith) lt).3,
  two_pow_mono (bucket_for (suc l)) n (omega arith),
)

below→before : (l n : ℕ) → l < 2 ^ 64 → l < 2 ^ n → bucket_for l < suc n
below→before zero n lt h = omega (arith, bucket_for_zero)
below→before (suc l) n lt h = elim (dec_lt n (bucket_for (suc l))) [
  | yes late ↦ absurd (
      omega (
        arith,
        (bucket_for-Brackets (suc l) (omega arith) lt).2,
        two_pow_mono n (bucket_for (suc l) - 1) (omega arith),
      ))
  | no early ↦ omega arith
]

pub count_before-below :
    (n : ℕ) (ls : List ℕ) → AllWords ls → count_before (suc n) ls ≡ count_below (2 ^ n) ls
count_before-below n [] w = refl
count_before-below n (l ∷ ls) w = elim (dec_lt l (2 ^ n)) [
  | yes lt ↦ ground (arith, below→before l n w.0 lt, count_before-below n ls w.1)
  | no ge ↦ ground (arith, before→below l n w.0, count_before-below n ls w.1)
]

count_below-all : (ls : List ℕ) → AllWords ls → count_below (2 ^ 64) ls ≡ length ls
count_below-all [] w = refl
count_below-all (l ∷ ls) w = ground (arith, w.0, count_below-all ls w.1)

-- Among the latencies of the list, `percentile` finds the first power of two below which the wanted
-- portion lies.
abbrev pub FindsFirst : (ℕ → ℕ) → List ℕ → ℕ → Type 0
FindsFirst portion ls result =
    (n : ℕ) × (n ≤ 64)
    × IsFirst (λ m. count_below (2 ^ m) ls) (portion (length ls)) n
    × (result ≡ 2 ^ (n - 1))

unwrapped : (n : ℕ) → n ≤ 64 → u64 (2 ^ (0 + n - 1)) ≡ 2 ^ (n - 1)
unwrapped n le = ap (λ t. u64 (2 ^ t)) same ∙ omega (arith, two_pow_mono (n - 1) 63 (omega arith))
  where
    same : 0 + n - 1 ≡ n - 1
    same = omega arith

module _ (ls h : List ℕ) (v : IsHistogram ls h) (w : AllWords ls) where
  counts : (n : ℕ) → counts_from 0 h n ≡ count_below (2 ^ n) ls
  counts n = omega (arith, v.counted (suc n), count_before-below n ls w)

  sum-total : sum h ≡ length ls
  sum-total =
      ap sum (sym (take-all h bucket_count v.sized))
      ∙ (v.counted bucket_count ∙ count_before-all ls)

  -- No word belongs to a bucket behind the bucket 64.
  first-le : (target n : ℕ) → target ≤ length ls → IsFirst (counts_from 0 h) target n → n ≤ 64
  first-le target n le first = elim (dec_lt 64 n) [
    | yes late ↦ absurd (omega (arith, first.least 64 late, counts 64, count_below-all ls w))
    | no early ↦ omega arith
  ]

  Stops-FindsFirst :
      (portion : ℕ → ℕ)
      → portion (length ls) ≤ length ls
      → Stops (portion (length ls)) 0 0 h
      → FindsFirst portion ls (scan (portion (length ls)) 0 0 h)
  Stops-FindsFirst portion le (n, inside, first, e) = (
    n,
    bound,
    record {
      reaches = omega (arith, first.reaches, counts n);
      least = λ m lt. omega (arith, first.least m lt, counts m);
    },
    e ∙ unwrapped n bound,
  )
    where
      bound : n ≤ 64
      bound = first-le (portion (length ls)) n le first

scan-FindsFirst :
    (portion : ℕ → ℕ) (ls h : List ℕ)
    → IsHistogram ls h
    → AllWords ls
    → length ls < 2 ^ 64
    → portion (length ls) ≤ length ls
    → FindsFirst portion ls (scan (portion (length ls)) 0 0 h)
scan-FindsFirst portion ls [] v w lt le = absurd (omega (arith, v.sized))
scan-FindsFirst portion ls (b ∷ bs) v w lt le = Stops-FindsFirst ls (b ∷ bs) v w portion le (
    scan-Stops (portion (length ls)) 0 0 b bs (omega (arith, sum-total ls (b ∷ bs) v w))
      (omega (arith, sum-total ls (b ∷ bs) v w)))

percentile-some :
    (portion : ℕ → ℕ) (h : List ℕ) (total : ℕ)
    → total_from 0 h ≡ total
    → 0 < total
    → percentile portion h ≡ scan (portion total) 0 0 h
unfolding percentile
percentile-some portion h total e pos = rw e (ground arith)

-- `percentile` on the buckets of recorded latencies, fewer than 2^64 and at least one, gives
-- 2^(n-1) for the first n of 0, ..., 64 such that the wanted portion of the latencies is below 2^n,
-- if that portion, which floating point computes, is no more than all of them.
pub percentile-FindsFirst :
    (portion : ℕ → ℕ) (ls buckets : List ℕ)
    → IsHistogram ls buckets
    → AllWords ls
    → 0 < length ls
    → length ls < 2 ^ 64
    → portion (length ls) ≤ length ls
    → FindsFirst portion ls (percentile portion buckets)
percentile-FindsFirst portion ls h v w pos lt le =
    rw (percentile-some portion h (length ls) total pos) (scan-FindsFirst portion ls h v w lt le)
  where
    total : total_from 0 h ≡ length ls
    total =
        total_from_lem 0 h (omega (arith, sum-total ls h v w)) ∙ omega (arith, sum-total ls h v w)
