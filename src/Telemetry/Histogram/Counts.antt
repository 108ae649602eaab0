-- ===== src/Telemetry/Histogram/Counts.antt =====
-- What the buckets hold: how many of the latencies recorded fall below a bucket.
use jellybean.Base.{ℕ, zero, suc, ◌+◌, ◌^◌, ◌≤◌, ◌<◌, ◌≡◌, refl, ap, ◌∙◌, arith}
use jellybean.Base.{List, [], ◌∷◌, length, take, set, get_or, replicate, length-set}
use jellybean.Base.{dec_lt, ltb, if◌then◌else◌}
use jellybean.Base.Words.{add64}
use jellybean.Telemetry.Histogram.{bucket_for, bucket_count, fresh, record_latency}

abbrev pub sum : List ℕ → ℕ
sum [] = 0
sum (b ∷ bs) = b + sum bs

-- How many of the latencies belong to the buckets before the bucket `n`.
abbrev pub count_before : ℕ → List ℕ → ℕ
count_before n [] = 0
count_before n (l ∷ ls) = (if ltb (bucket_for l) n then 1 else 0) + count_before n ls

-- The buckets hold the latencies of the list.
pub record IsHistogram (ls buckets : List ℕ) : Type 0 where
  pub sized : length buckets ≡ bucket_count
  pub counted : (n : ℕ) → sum (take n buckets) ≡ count_before n ls

pub count_before-le : (n : ℕ) (ls : List ℕ) → count_before n ls ≤ length ls
count_before-le n [] = omega arith
count_before-le n (l ∷ ls) = ground (arith, count_before-le n ls)

get_or-le : (h : List ℕ) (k : ℕ) → get_or h k 0 ≤ sum (take (suc k) h)
get_or-le [] k = omega arith
get_or-le (b ∷ bs) zero = omega arith
get_or-le (b ∷ bs) (suc k) = omega (arith, get_or-le bs k)

-- One bucket replaced changes the sums that reach it.
sum-take-set_in :
    (h : List ℕ) (n k v : ℕ)
    → k < length h
    → k < n
    → sum (take n (set h k v)) + get_or h k 0 ≡ sum (take n h) + v
sum-take-set_in [] n k v lt lt' = absurd (omega arith)
sum-take-set_in (b ∷ bs) zero k v lt lt' = absurd (omega arith)
sum-take-set_in (b ∷ bs) (suc n) zero v lt lt' = omega arith
sum-take-set_in (b ∷ bs) (suc n) (suc k) v lt lt' =
    omega (arith, sum-take-set_in bs n k v (omega arith) (omega arith))

sum-take-set_out : (h : List ℕ) (n k v : ℕ) → n ≤ k → sum (take n (set h k v)) ≡ sum (take n h)
sum-take-set_out [] n k v le = refl
sum-take-set_out (b ∷ bs) zero k v le = refl
sum-take-set_out (b ∷ bs) (suc n) zero v le = absurd (omega arith)
sum-take-set_out (b ∷ bs) (suc n) (suc k) v le =
    omega (arith, sum-take-set_out bs n k v (omega arith))

bucket_for-lt : (l : ℕ) → bucket_for l < bucket_count
unfolding bucket_for
bucket_for-lt l = ground arith

-- No latency belongs to a bucket behind the last.
pub count_before-all : (ls : List ℕ) → count_before bucket_count ls ≡ length ls
count_before-all [] = refl
count_before-all (l ∷ ls) = ground (arith, bucket_for-lt l, count_before-all ls)

sum-fresh : (n m : ℕ) → sum (take n (replicate m 0)) ≡ 0
sum-fresh zero m = refl
sum-fresh (suc n) zero = refl
sum-fresh (suc n) (suc m) = omega (arith, sum-fresh n m)

length-replicate : (v m : ℕ) → length (replicate m v) ≡ m
length-replicate v zero = refl
length-replicate v (suc m) = ap suc (length-replicate v m)

pub fresh-IsHistogram : IsHistogram [] fresh
fresh-IsHistogram = record {
  sized = length-replicate 0 bucket_count;
  counted = λ n. sum-fresh n bucket_count;
}

module _ (ls h : List ℕ) (l n : ℕ) (v : IsHistogram ls h) (room : length ls + 1 < 2 ^ 64) where
  -- The buckets with the latency in its own.
  abbrev raised : List ℕ
  raised = set h (bucket_for l) (add64 (get_or h (bucket_for l) 0) 1)

  counted_in : bucket_for l < n → sum (take n raised) ≡ 1 + count_before n ls
  counted_in lt = omega (
    arith,
    sum-take-set_in h n (bucket_for l) (add64 (get_or h (bucket_for l) 0) 1)
        (omega (arith, bucket_for-lt l, v.sized)) lt,
    get_or-le h (bucket_for l),
    v.counted n,
    v.counted (suc (bucket_for l)),
    count_before-le (suc (bucket_for l)) ls,
  )

  counted_out : n ≤ bucket_for l → sum (take n raised) ≡ count_before n ls
  counted_out le = sum-take-set_out h n (bucket_for l) _ le ∙ v.counted n

  counted_after : sum (take n raised) ≡ count_before n (l ∷ ls)
  counted_after = elim (dec_lt (bucket_for l) n) [
    | yes lt ↦ ground (arith, counted_in lt)
    | no ge ↦ ground (arith, counted_out (omega arith))
  ]

-- `record` adds a latency to those that the buckets hold, as long as the counts stay below 2^64.
pub record_latency-IsHistogram :
    (ls buckets : List ℕ) (latency_ns : ℕ)
    → IsHistogram ls buckets
    → length ls + 1 < 2 ^ 64
    → IsHistogram (latency_ns ∷ ls) (record_latency buckets latency_ns)
unfolding record_latency
record_latency-IsHistogram ls h l v room = record {
  sized = length-set h _ _ ∙ v.sized;
  counted = λ n. counted_after ls h l n v room;
}
