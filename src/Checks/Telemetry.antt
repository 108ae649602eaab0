-- ===== src/Checks/Telemetry.antt =====
-- The histogram of include/jellybean/telemetry/metrics.hpp with two latencies.
use jellybean.Base.{ℕ, ◌/◌, ◌≡◌, refl, arith, List, [], ◌∷◌}
use jellybean.Telemetry.Histogram.{bucket_for, fresh, record_latency, percentile}
use jellybean.Telemetry.Histogram.Counts.{
  IsHistogram, fresh-IsHistogram, record_latency-IsHistogram,
}
use jellybean.Telemetry.Histogram.Percentile.{FindsFirst, percentile-FindsFirst}

abbrev half : ℕ → ℕ
half total = total / 2

abbrev one_latency : List ℕ
one_latency = record_latency fresh 1000

abbrev two_latencies : List ℕ
two_latencies = record_latency one_latency 3

buckets_of : (bucket_for 0 ≡ 0) × (bucket_for 1 ≡ 1) × (bucket_for 1000 ≡ 10)
unfolding bucket_for
buckets_of = (refl, refl, refl)

median_of_two : percentile half two_latencies ≡ 2
unfolding percentile record_latency
median_of_two = refl

one_latency-IsHistogram : IsHistogram (1000 ∷ []) one_latency
one_latency-IsHistogram = record_latency-IsHistogram [] fresh 1000 fresh-IsHistogram (omega arith)

percentile-FindsFirst_example : FindsFirst half (3 ∷ 1000 ∷ []) (percentile half two_latencies)
percentile-FindsFirst_example =
    percentile-FindsFirst half (3 ∷ 1000 ∷ []) two_latencies
      (record_latency-IsHistogram (1000 ∷ []) one_latency 3 one_latency-IsHistogram (omega arith))
      (omega arith, (omega arith, tt)) (omega arith) (omega arith) (omega arith)
