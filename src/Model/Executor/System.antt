-- ===== src/Model/Executor/System.antt =====
-- The executor with its clients and workers: a state machine whose steps are the rounds of
-- `infer_async` and `worker_loop` of src/model/model_executor.cpp, in any order.
use jellybean.Base.{
  ℕ, zero, suc, ◌+◌, ◌<◌, ◌≡◌, Bool, true, false, some, List, [], ◌∷◌, ◌++◌, length,
}
use jellybean.Base.Int.{ℤ}
use jellybean.Inference.Types.{InferenceRequest, InferenceResponse}
use jellybean.Model.Executor.{
  Task, Executor, Batch, make, start, stop, enter, push_round, collect_round, finish_batch,
}

-- `infer_batch` of the interface IInferenceBackend: it answers every request.
pub record Backend {ℓ} (Float : Type ℓ) : Type ℓ where
  pub infer_batch : List (InferenceRequest Float) → List InferenceResponse
  pub answers_all : (reqs : List (InferenceRequest Float)) → length (infer_batch reqs) ≡ length reqs

-- The clients in the loop of `infer_async` with their tasks, the batches of the workers, and the
-- promise of the next request.
pub record System {ℓ} (Float : Type ℓ) : Type ℓ where
  pub executor : Executor Float
  pub waiting : List (Task Float)
  pub working : List (Batch Float)
  pub next : ℕ

abbrev pub idle_workers {ℓ} : {Float : Type ℓ} → ℕ → List (Batch Float)
idle_workers zero = []
idle_workers (suc n) = [] ∷ idle_workers n

-- No worker holds a task.
abbrev pub AllIdle {ℓ} : {Float : Type ℓ} → List (Batch Float) → Type 0
AllIdle [] = Unit
AllIdle (batch ∷ batches) = (length batch ≡ 0) × AllIdle batches

module _ {ℓ} {Float : Type ℓ} where
  abbrev pub after_enter : System Float → Task Float → Executor Float × Bool → System Float
  after_enter s t (e, true) = record s {
    executor = e;
    waiting = s.waiting ++ (t ∷ []);
    next = s.next + 1;
  }
  after_enter s t (e, false) = record s { executor = e; next = s.next + 1 }

  abbrev pub after_push :
      System Float → List (Task Float) → List (Task Float) → Executor Float × Bool → System Float
  after_push s before after (e, true) = record s { executor = e }
  after_push s before after (e, false) = record s { executor = e; waiting = before ++ after }

  abbrev pub after_collect :
      System Float
      → List (Batch Float)
      → List (Batch Float)
      → (Executor Float × Batch Float) × Bool
      → System Float
  after_collect s before after ((e, batch), more) = record s {
    executor = e;
    working = before ++ (batch ∷ after);
  }

  -- A worker may finish a batch that holds a task before the inner loop ends: there are more steps
  -- here than in the code. `stop` leaves the workers to finish their batches; `start` makes new
  -- workers, once the old ones are joined.
  pub data Step (backend : Backend Float) : System Float → System Float → Type ℓ where
    submit :
        (s : System Float) (t : Task Float) (is_ready : Bool)
        → t.promise ≡ s.next
        → Step backend s (after_enter s t (enter is_ready s.executor t))
    push :
        (s : System Float) (before after : List (Task Float)) (t : Task Float) (late : Bool)
        → s.waiting ≡ before ++ (t ∷ after)
        → Step backend s (after_push s before after (push_round late s.executor t))
    collect :
        (s : System Float) (before after : List (Batch Float)) (batch : Batch Float)
        (max_batch_size wait_ns : ℕ) (max_batch_delay_us elapsed_us : ℤ)
        → s.working ≡ before ++ (batch ∷ after)
        → Step backend s (
            after_collect s before after
              (collect_round max_batch_size max_batch_delay_us elapsed_us wait_ns s.executor batch))
    finish :
        (s : System Float) (before after : List (Batch Float)) (batch : Batch Float)
        (is_ready : Bool) (execution_ns : ℕ) (e : Executor Float)
        → s.working ≡ before ++ (batch ∷ after)
        → 0 < length batch
        → finish_batch is_ready backend.infer_batch execution_ns s.executor batch ≡ some e
        → Step backend s (record s { executor = e; working = before ++ ([] ∷ after) })
    halt : (s : System Float) → Step backend s (record s { executor = stop s.executor })
    resume :
        (s : System Float)
        → AllIdle s.working
        → s.executor.stopped ≡ true
        → Step backend s (record s {
          executor = start s.executor;
          working = idle_workers s.executor.num_workers;
        })

  -- The executor as it is constructed.
  abbrev pub initial : ℕ → System Float
  initial num_workers = record { executor = make num_workers; waiting = []; working = []; next = 0 }

  pub data Reach (backend : Backend Float) (s : System Float) : System Float → Type ℓ where
    here : Reach backend s s
    then_step : {t u : System Float} → Reach backend s t → Step backend t u → Reach backend s u
