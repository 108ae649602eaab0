-- ===== src/Checks/Metrics.antt =====
-- The metrics server of src/telemetry/metrics_export.cpp: a start whose bind fails, one that succeeds,
-- and a client that takes two bytes at a time.
use jellybean.Base.{ℕ, ◌≡◌, refl, arith, true, false, Option, some, none, List, [], ◌∷◌}
use jellybean.Base.Text.{Text, codes}
use jellybean.Telemetry.Report.{ModelExecutorMetrics, serialize_metrics_json}
use jellybean.Telemetry.Report.Json.{Denotes, Object, Document}
use jellybean.Telemetry.Report.Reads.{values, serialize_metrics_json-Document}
use jellybean.Telemetry.Server.{make_server, stop, write_report}
use jellybean.Telemetry.Server.Sockets.{Call, starts, calls, IsValid, IsStopped, calls-IsStopped}
use jellybean.Telemetry.Server.Writing.{Splits, Takes, write_report-Splits}

abbrev called : List Call
called =
    starts (record { socket = some 5; binds = false; listens = true })
    ∷ starts (record { socket = some 6; binds = true; listens = true })
    ∷ []

left_open : (calls called make_server).sockets ≡ 6 ∷ []
unfolding calls
left_open = refl

calls-IsStopped_example :
    IsValid (calls called make_server) × IsStopped (stop (calls called make_server))
calls-IsStopped_example = calls-IsStopped called

abbrev answer : List ℕ → ℕ → Option ℕ × ℕ
answer [] s = (none, s)
answer (b ∷ []) s = (some 1, s)
answer (b ∷ c ∷ left) s = (some 2, s)

answer-Takes : Takes {S = ℕ} answer (λ s. false)
answer-Takes b [] s = (1, s, refl, omega arith, omega arith)
answer-Takes b (c ∷ left) s = (2, s, refl, omega arith, omega arith)

written : (write_report answer (λ s. false) (1 ∷ 2 ∷ 3 ∷ []) 0).0 ≡ 1 ∷ 2 ∷ 3 ∷ []
unfolding write_report
written = refl

write_report-Splits_example :
    Splits (1 ∷ 2 ∷ 3 ∷ []) (write_report answer (λ s. false) (1 ∷ 2 ∷ 3 ∷ []) 0).0
    × (Takes {S = ℕ} answer (λ s. false)
        → ((s : ℕ) → false ≡ false)
        → (write_report answer (λ s. false) (1 ∷ 2 ∷ 3 ∷ []) 0).0 ≡ 1 ∷ 2 ∷ 3 ∷ [])
write_report-Splits_example = write_report-Splits answer (λ s. false) (1 ∷ 2 ∷ 3 ∷ []) 0

taken_whole : (write_report answer (λ s. false) (1 ∷ 2 ∷ 3 ∷ []) 0).0 ≡ 1 ∷ 2 ∷ 3 ∷ []
taken_whole =
    (write_report-Splits answer (λ s. false) (1 ∷ 2 ∷ 3 ∷ []) 0).1 answer-Takes (λ s. refl)

abbrev metrics_named : Text → ModelExecutorMetrics
metrics_named id = record {
  model_id = id;
  metrics = record {
    requests_received = 120;
    requests_completed = 7;
    requests_rejected = 0;
    queue_timeouts = 10;
  };
  p50_ns = 1;
  p95_ns = 2;
  p99_ns = 4096;
}

abbrev two_models : List ModelExecutorMetrics
two_models = metrics_named (codes "bert") ∷ metrics_named (codes "resnet") ∷ []

empty_report : serialize_metrics_json [] ≡ codes "{\n}\n"
unfolding serialize_metrics_json
empty_report = refl

serialize_metrics_json-Document_example :
    Document (Object Denotes) (serialize_metrics_json two_models) (values two_models)
serialize_metrics_json-Document_example =
    serialize_metrics_json-Document two_models (refl, (refl, tt))
