-- ===== src/Telemetry/Report/Reads.antt =====
-- A report is a JSON object with what the metrics are.
use mathlib.Core.Path.{subst}
use jellybean.Base.{
  ℕ, zero, suc, ◌+◌, ◌*◌, ◌/◌, ◌%◌, ◌<◌, ◌≡◌, refl, sym, ap, ◌∙◌, arith, true, Bool-cases, inl, inr,
  List, [], ◌∷◌, ◌++◌, append_assoc, ltb,
}
use jellybean.Base.Text.{Text, codes}
use jellybean.Base.Numerals.{digits_of, to_text}
use jellybean.Telemetry.Report.{
  ModelExecutorMetrics, number, fields_text, models_text, serialize_metrics_json,
}
use jellybean.Telemetry.Report.Json.{
  all_plain, Denotes, one_digit, next_digit, Member, member, Members, no_members, last_member,
  next_member, Object, object, Document, document,
}

digits_of-Denotes : (fuel n : ℕ) → n < fuel → Denotes (digits_of fuel n) n
unfolding digits_of
digits_of-Denotes zero n lt = absurd (omega (arith, lt))
digits_of-Denotes (suc fuel) n lt = elim (Bool-cases (ltb n 10)) [
  | inl small ↦ rw small (one_digit n (ground (arith, small)))
  | inr large ↦ rw large (
      subst (Denotes (digits_of fuel (n / 10) ++ ((b'0' + n % 10) ∷ [])))
        (let e : 10 * (n / 10) + n % 10 ≡ n = omega arith in e)
        (next_digit (digits_of fuel (n / 10)) (n / 10) (n % 10)
          (digits_of-Denotes fuel (n / 10) (ground (arith, lt, large))) (ground (arith, large))
          (omega arith)))
]

number-Denotes : (n : ℕ) → Denotes (number n) n
unfolding number to_text
number-Denotes n = digits_of-Denotes (suc n) n (omega arith)

-- The members of a model's object.
abbrev pub counters : ModelExecutorMetrics → List (Text × ℕ)
counters m =
    (codes "requests_received", m.metrics.requests_received)
    ∷ (codes "requests_completed", m.metrics.requests_completed)
    ∷ (codes "requests_rejected", m.metrics.requests_rejected)
    ∷ (codes "queue_timeouts", m.metrics.queue_timeouts)
    ∷ (codes "latency_p50_ns", m.p50_ns)
    ∷ (codes "latency_p95_ns", m.p95_ns)
    ∷ (codes "latency_p99_ns", m.p99_ns)
    ∷ []

-- A line of a model's object, without the comma.
counter_text : Text → ℕ → Text
counter_text k n = codes "\n    \"" ++ (k ++ (codes "\": " ++ number n))

counter : (k : Text) (n : ℕ) → all_plain k ≡ true → Member Denotes (counter_text k n) (k, n)
unfolding counter_text
counter k n e = member (codes "\n    ") k (codes " ") (number n) n refl e refl (number-Denotes n)

counters_text : List (Text × ℕ) → Text
unfolding counter_text
counters_text [] = codes "\n  }"
counters_text ((k, n) ∷ []) = counter_text k n ++ codes "\n  }"
counters_text ((k, n) ∷ kv ∷ kvs) = counter_text k n ++ (b',' ∷ counters_text (kv ∷ kvs))

abbrev AllNamed : List (Text × ℕ) → Type 0
AllNamed [] = Unit
AllNamed ((k, n) ∷ kvs) = (all_plain k ≡ true) × AllNamed kvs

counters-Members : (kvs : List (Text × ℕ)) → AllNamed kvs → Members Denotes (counters_text kvs) kvs
unfolding counters_text
counters-Members [] named = no_members (codes "\n  ") refl
counters-Members ((k, n) ∷ []) named =
    last_member (counter_text k n) (codes "\n  ") (k, n) (counter k n named.0) refl
counters-Members ((k, n) ∷ kv ∷ kvs) named =
    next_member (counter_text k n) (counters_text (kv ∷ kvs)) (k, n) kv kvs (counter k n named.0)
      (counters-Members (kv ∷ kvs) named.1)

counters-AllNamed : (m : ModelExecutorMetrics) → AllNamed (counters m)
counters-AllNamed m = (refl, (refl, (refl, (refl, (refl, (refl, (refl, tt)))))))

regroup : (a b c d : Text) → (a ++ b) ++ (c ++ d) ≡ (a ++ (b ++ c)) ++ d
regroup a b c d =
    append_assoc a b (c ++ d)
    ∙ ap (λ (t : Text). a ++ t) (sym (append_assoc b c d))
    ∙ sym (append_assoc a (b ++ c) d)

-- What stands behind a model's name.
fields_text-counters :
    (m : ModelExecutorMetrics) → fields_text m ≡ codes "\": {" ++ counters_text (counters m)
unfolding fields_text counters_text
fields_text-counters m = refl

model-Member :
    (m : ModelExecutorMetrics)
    → all_plain m.model_id ≡ true
    → Member
        (Object Denotes)
        (codes "\n  \"" ++ (m.model_id ++ fields_text m))
        (m.model_id, counters m)
model-Member m plain =
    subst
      (λ (t : Text).
        Member (Object Denotes) (codes "\n  \"" ++ (m.model_id ++ t)) (m.model_id, counters m))
      (sym (fields_text-counters m))
      (member (codes "\n  ") m.model_id (codes " ") (b'{' ∷ counters_text (counters m)) (counters m)
        refl plain refl
        (object (counters_text (counters m)) (counters m)
          (counters-Members (counters m) (counters-AllNamed m))))

abbrev pub AllPlain : List ModelExecutorMetrics → Type 0
AllPlain [] = Unit
AllPlain (m ∷ ms) = (all_plain m.model_id ≡ true) × AllPlain ms

-- What a report says: by the name of each model its counters.
abbrev pub values : List ModelExecutorMetrics → List (Text × List (Text × ℕ))
values [] = []
values (m ∷ ms) = (m.model_id, counters m) ∷ values ms

models-Members :
    (ms : List ModelExecutorMetrics)
    → AllPlain ms
    → Members (Object Denotes) (b'\n' ∷ (models_text ms ++ codes "}")) (values ms)
unfolding models_text
models-Members [] plain = no_members (codes "\n") refl
models-Members (m ∷ []) plain =
    subst (λ (t : Text). Members (Object Denotes) (codes "\n  \"" ++ t) (values (m ∷ [])))
      (regroup m.model_id (fields_text m) (codes "\n") (codes "}"))
      (last_member (codes "\n  \"" ++ (m.model_id ++ fields_text m)) (codes "\n")
        (m.model_id, counters m) (model-Member m plain.0) refl)
models-Members (m ∷ n ∷ ms) plain =
    subst (λ (t : Text). Members (Object Denotes) (codes "\n  \"" ++ t) (values (m ∷ n ∷ ms)))
      (regroup m.model_id (fields_text m) (codes ",\n" ++ models_text (n ∷ ms)) (codes "}"))
      (next_member (codes "\n  \"" ++ (m.model_id ++ fields_text m))
        (b'\n' ∷ (models_text (n ∷ ms) ++ codes "}")) (m.model_id, counters m)
        (n.model_id, counters n) (values ms) (model-Member m plain.0)
        (models-Members (n ∷ ms) plain.1))

-- If no model's name has a quote, a backslash or a control character, then the report is a JSON object
-- that has, by the name of each model and in their order, the object of its counters.
pub serialize_metrics_json-Document :
    (all : List ModelExecutorMetrics)
    → AllPlain all
    → Document (Object Denotes) (serialize_metrics_json all) (values all)
unfolding serialize_metrics_json
serialize_metrics_json-Document all plain =
    subst (λ (t : Text). Document (Object Denotes) (codes "{\n" ++ t) (values all))
      (append_assoc (models_text all) (codes "}") (codes "\n"))
      (document (b'{' ∷ b'\n' ∷ (models_text all ++ codes "}")) (codes "\n") (values all)
        (object (b'\n' ∷ (models_text all ++ codes "}")) (values all) (models-Members all plain))
        refl)
