-- ===== src/Telemetry/Report.antt =====
-- `get_all_metrics` of src/telemetry/metrics.cpp, with `PlainMetrics` and `ModelExecutorMetrics` of
-- include/jellybean/telemetry/metrics.hpp, and `serialize_metrics_json` of
-- src/telemetry/metrics_export.cpp. A portion is the product with 0.5, 0.95 or 0.99 in floating point.
pub mod Json
pub mod Reads
use jellybean.Base.{ℕ, List, [], ◌∷◌, ◌++◌}
use jellybean.Base.Text.{Text, codes}
use jellybean.Base.Int.{pos}
use jellybean.Base.Numerals.{to_text}
use jellybean.Base.Dict.{Dict}
use jellybean.Inference.Runtime.{Runtime}
use jellybean.Model.Executor.{Executor}
use jellybean.Telemetry.Histogram.{percentile}

pub record PlainMetrics : Type 0 where
  pub requests_received : ℕ
  pub requests_completed : ℕ
  pub requests_rejected : ℕ
  pub queue_timeouts : ℕ

pub record ModelExecutorMetrics : Type 0 where
  pub model_id : Text
  pub metrics : PlainMetrics
  pub p50_ns : ℕ
  pub p95_ns : ℕ
  pub p99_ns : ℕ

module _ {ℓ} (portion_50 portion_95 portion_99 : ℕ → ℕ) {Float : Type ℓ} where
  unfoldable pub metrics_of : Text → Executor Float → ModelExecutorMetrics
  unfolding percentile
  metrics_of id executor = record {
    model_id = id;
    metrics = record {
      requests_received = executor.metrics.requests_received;
      requests_completed = executor.metrics.requests_completed;
      requests_rejected = executor.metrics.requests_rejected;
      queue_timeouts = executor.metrics.queue_timeouts;
    };
    p50_ns = percentile portion_50 executor.latency_hist;
    p95_ns = percentile portion_95 executor.latency_hist;
    p99_ns = percentile portion_99 executor.latency_hist;
  }

  abbrev pub metrics_of_all : Dict (Executor Float) → List ModelExecutorMetrics
  unfolding metrics_of
  metrics_of_all [] = []
  metrics_of_all ((id, executor) ∷ rest) = metrics_of id executor ∷ metrics_of_all rest

  unfoldable pub get_all_metrics : Runtime Float → List ModelExecutorMetrics
  unfolding metrics_of_all
  get_all_metrics r = metrics_of_all r.executors

unfoldable pub number : ℕ → Text
unfolding to_text
number n = to_text (pos n)

-- A round of the loop, from behind the name to the closing brace.
abbrev pub fields_text : ModelExecutorMetrics → Text
unfolding number
fields_text m =
    codes "\": {\n"
    ++ (codes "    \"requests_received\": "
        ++ (number m.metrics.requests_received
            ++ (codes ",\n"
                ++ (codes "    \"requests_completed\": "
                    ++ (number m.metrics.requests_completed
                        ++ (codes ",\n"
                            ++ (codes "    \"requests_rejected\": "
                                ++ (number m.metrics.requests_rejected
                                    ++ (codes ",\n"
                                        ++ (codes "    \"queue_timeouts\": "
                                            ++ (number m.metrics.queue_timeouts
                                                ++ (codes ",\n"
                                                    ++ (codes "    \"latency_p50_ns\": "
                                                        ++ (number m.p50_ns
                                                            ++ (codes ",\n"
                                                            ++ (codes "    \"latency_p95_ns\": "
                                                            ++ (number m.p95_ns
                                                            ++ (codes ",\n"
                                                            ++ (codes "    \"latency_p99_ns\": "
                                                            ++ (number m.p99_ns
                                                            ++ (codes "\n"
                                                            ++ codes "  }")))))))))))))))))))))

-- The loop. A comma follows each model but the last.
unfoldable pub models_text : List ModelExecutorMetrics → Text
unfolding fields_text
models_text [] = []
models_text (m ∷ []) = codes "  \"" ++ (m.model_id ++ (fields_text m ++ codes "\n"))
models_text (m ∷ n ∷ rest) =
    codes "  \"" ++ (m.model_id ++ (fields_text m ++ (codes ",\n" ++ models_text (n ∷ rest))))

unfoldable pub serialize_metrics_json : List ModelExecutorMetrics → Text
unfolding models_text
serialize_metrics_json all = codes "{\n" ++ (models_text all ++ codes "}\n")
