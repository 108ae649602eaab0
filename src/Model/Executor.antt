-- ===== src/Model/Executor.antt =====
-- `ModelExecutor` of include/jellybean/model/model_executor.hpp and src/model/model_executor.cpp. The
-- queue is the bounded queue that src's MpmcQueue promises; a promise is a number, and `answered` is
-- the list of the promises resolved. Clocks, and whether the model is ready, are arguments.
pub mod System
pub mod Places
pub mod Conserve
pub mod Finish
use jellybean.Base.{
  ℕ, zero, suc, ◌+◌, Bool, true, false, not, ◌&&◌, ◌||◌, Option, none, some, List, [], ◌∷◌, ◌++◌,
  length, map, ltb, if◌then◌else◌, ◌==◌,
}
use jellybean.Base.Text.{Text, codes}
use jellybean.Base.Int.{ℤ, pos, ltb_ℤ}
use jellybean.Base.Words.{add64}
use jellybean.Inference.Types.{InferenceRequest, InferenceResponse, no_response}
use jellybean.Telemetry.Histogram.{fresh, record_latency}

-- `RuntimeMetrics` of include/jellybean/telemetry/metrics.hpp.
pub record RuntimeMetrics : Type 0 where
  pub requests_received : ℕ
  pub requests_completed : ℕ
  pub requests_rejected : ℕ
  pub queue_timeouts : ℕ

pub record Task {ℓ} (Float : Type ℓ) : Type ℓ where
  pub req : InferenceRequest Float
  pub promise : ℕ
  pub enqueue_time : ℕ
  pub routing_ns : ℕ

pub record Executor {ℓ} (Float : Type ℓ) : Type ℓ where
  pub num_workers : ℕ
  pub queue : List (Task Float)
  pub stopped : Bool
  pub metrics : RuntimeMetrics
  pub latency_hist : List ℕ
  pub answered : List (ℕ × InferenceResponse)

abbrev pub queue_capacity : ℕ
queue_capacity = 1024

abbrev pub no_metrics : RuntimeMetrics
no_metrics = record {
  requests_received = 0;
  requests_completed = 0;
  requests_rejected = 0;
  queue_timeouts = 0;
}

-- A task of a batch with the time that it has waited in the queue.
abbrev pub Batch {ℓ} : Type ℓ → Type ℓ
Batch Float = List (Task Float × ℕ)

abbrev pub error_response : Text → InferenceResponse
error_response text = record no_response { error = text }

abbrev pub count_done : Bool → RuntimeMetrics → RuntimeMetrics
count_done true m = record m { requests_completed = add64 m.requests_completed 1 }
count_done false m = record m { requests_rejected = add64 m.requests_rejected 1 }

module _ {ℓ} {Float : Type ℓ} where
  -- The constructor.
  unfoldable pub make : ℕ → Executor Float
  make num_workers = record {
    num_workers = if ltb 0 num_workers then num_workers else 1;
    queue = [];
    stopped = true;
    metrics = no_metrics;
    latency_hist = fresh;
    answered = [];
  }

  -- `start` and `stop`, without the threads; those are in `System`.
  unfoldable pub start : Executor Float → Executor Float
  start e = if e.stopped then record e { stopped = false } else e

  unfoldable pub stop : Executor Float → Executor Float
  stop e = if e.stopped then e else record e { stopped = true }

  -- `promise.set_value`
  unfoldable pub resolve : Executor Float → ℕ → InferenceResponse → Executor Float
  resolve e promise resp = record e { answered = e.answered ++ ((promise, resp) ∷ []) }

  abbrev pub count_received : Executor Float → Executor Float
  count_received e = record e {
    metrics = record e.metrics { requests_received = add64 e.metrics.requests_received 1 };
  }

  -- `infer_async` up to its loop; the flag tells that it goes on.
  unfoldable pub enter : Bool → Executor Float → Task Float → Executor Float × Bool
  unfolding resolve
  enter is_ready e slot =
      if not is_ready
      then (
        resolve (count_received e) slot.promise
            (error_response (codes "model not ready: " ++ slot.req.model_id)),
        false,
      )
      else (count_received e, true)

  abbrev pub count_timeout : Executor Float → Executor Float
  count_timeout e = record e {
    metrics = record e.metrics { queue_timeouts = add64 e.metrics.queue_timeouts 1 };
  }

  -- A round of the loop of `infer_async`, and its end when the executor is stopped; `late` is the
  -- test of the deadline, and the flag tells that the loop goes on.
  unfoldable pub push_round : Bool → Executor Float → Task Float → Executor Float × Bool
  unfolding resolve
  push_round late e slot =
      if e.stopped
      then (resolve e slot.promise (error_response (codes "executor stopped")), false)
      else if ltb (length e.queue) queue_capacity
      then (record e { queue = e.queue ++ (slot ∷ []) }, false)
      else if late
      then (
        resolve (count_timeout e) slot.promise
            (error_response (codes "queue full timeout for model: " ++ slot.req.model_id)),
        false,
      )
      else (e, true)

  -- What a worker finds in the queue: a task goes to the end of the batch.
  unfoldable pub pop_round :
      ℕ → Executor Float → Batch Float → List (Task Float) → Executor Float × Batch Float
  pop_round wait_ns e batch [] = (e, batch)
  pop_round wait_ns e batch (t ∷ ts) = (record e { queue = ts }, batch ++ ((t, wait_ns) ∷ []))

  abbrev pub has_task : List (Task Float) → Bool
  has_task [] = false
  has_task (t ∷ ts) = true

  abbrev pub has_entry : Batch Float → Bool
  has_entry [] = false
  has_entry (t ∷ ts) = true

  -- A round of the inner loop of `worker_loop`, with its condition; the flag tells that the loop
  -- goes on.
  unfoldable pub collect_round :
      ℕ → ℤ → ℤ → ℕ → Executor Float → Batch Float → (Executor Float × Batch Float) × Bool
  unfolding pop_round
  collect_round max_batch_size max_batch_delay_us elapsed_us wait_ns e batch =
      if not (ltb (length batch) max_batch_size && not e.stopped)
      then ((e, batch), false)
      else if has_task e.queue
      then (pop_round wait_ns e batch e.queue, true)
      else if not (has_entry batch)
      then ((e, batch), false)
      else if not (ltb_ℤ elapsed_us max_batch_delay_us)
      then ((e, batch), false)
      else ((e, batch), true)

  -- A round of the loop over the responses.
  unfoldable pub answer_task :
      ℕ → Executor Float → Task Float × ℕ → InferenceResponse → Executor Float
  unfolding resolve record_latency
  answer_task execution_ns e (t, wait_ns) resp =
      resolve
        (record e {
          latency_hist = record_latency e.latency_hist resp.latency_ns;
          metrics = count_done resp.is_ok e.metrics;
        })
        t.promise
        (record resp {
          routing_ns = t.routing_ns;
          queue_wait_ns = wait_ns;
          execution_ns = execution_ns;
        })

  -- The loop; `none` is a response that is not there.
  unfoldable pub answer_tasks :
      ℕ → Executor Float → Batch Float → List InferenceResponse → Option (Executor Float)
  unfolding answer_task
  answer_tasks execution_ns e [] resps = some e
  answer_tasks execution_ns e (t ∷ ts) [] = none
  answer_tasks execution_ns e (t ∷ ts) (r ∷ rs) =
      answer_tasks execution_ns (answer_task execution_ns e t r) ts rs

  -- The other loop, without a backend.
  unfoldable pub refuse_tasks : Executor Float → Batch Float → Executor Float
  unfolding resolve
  refuse_tasks e [] = e
  refuse_tasks e ((t, wait_ns) ∷ ts) =
      refuse_tasks (resolve e t.promise (error_response (codes "backend unavailable"))) ts

  abbrev pub requests : Batch Float → List (InferenceRequest Float)
  requests batch = map (λ t. t.0.req) batch

  -- `worker_loop` with a batch that is not empty.
  unfoldable pub finish_batch :
      Bool
      → (List (InferenceRequest Float) → List InferenceResponse)
      → ℕ
      → Executor Float
      → Batch Float
      → Option (Executor Float)
  unfolding answer_tasks refuse_tasks
  finish_batch is_ready infer_batch execution_ns e batch =
      if is_ready
      then answer_tasks execution_ns e batch (infer_batch (requests batch))
      else some (refuse_tasks e batch)
