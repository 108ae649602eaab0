-- ===== src/Telemetry/Histogram.antt =====
-- `LatencyHistogram` of include/jellybean/telemetry/metrics.hpp and src/telemetry/metrics.cpp, one
-- operation at a time.
pub mod Bucket
pub mod Counts
pub mod Scan
pub mod Percentile
use jellybean.Base.{ℕ, zero, suc, ◌+◌, ◌-◌, ◌/◌, ◌^◌, List, [], ◌∷◌, replicate, set, get_or}
use jellybean.Base.{min, leb, ◌==◌, if◌then◌else◌}
use jellybean.Base.Words.{u64, add64}

abbrev pub bucket_count : ℕ
bucket_count = 1024

-- `64 - __builtin_clzll(x)`: the number of binary digits of `x`, at most `fuel` of them.
unfoldable pub bit_width : ℕ → ℕ → ℕ
bit_width zero x = 0
bit_width (suc fuel) x = let rest = bit_width fuel (x / 2) in if x == 0 then 0 else suc rest

unfoldable pub bucket_for : ℕ → ℕ
unfolding bit_width
bucket_for latency_ns = if latency_ns == 0 then 0 else min (bit_width 64 latency_ns) 1023

-- `buckets_{}`
abbrev pub fresh : List ℕ
fresh = replicate bucket_count 0

-- `record`, a word of the language here.
unfoldable pub record_latency : List ℕ → ℕ → List ℕ
unfolding bucket_for
record_latency buckets latency_ns =
    set buckets (bucket_for latency_ns) (add64 (get_or buckets (bucket_for latency_ns) 0) 1)

-- The first loop of `percentile`.
unfoldable pub total_from : ℕ → List ℕ → ℕ
total_from total [] = total
total_from total (b ∷ bs) = total_from (add64 total b) bs

-- The second loop, at the index `i`.
unfoldable pub scan : ℕ → ℕ → ℕ → List ℕ → ℕ
scan target i count [] = 0
scan target i count (b ∷ bs) =
    let rest = scan target (suc i) (add64 count b) bs in
    if leb target (add64 count b) then u64 (2 ^ (i - 1)) else rest

-- `portion` is the product with `p` in floating point and its conversion back.
unfoldable pub percentile : (ℕ → ℕ) → List ℕ → ℕ
unfolding total_from scan
percentile portion buckets =
    let total = total_from 0 buckets in if total == 0 then 0 else scan (portion total) 0 0 buckets
