-- ===== src/Model/Executor/Finish.antt =====
-- The end of a round of `worker_loop`: every task of the batch is answered.
use jellybean.Base.{
  ℕ, suc, ◌≡◌, refl, ap, ◌∙◌, arith, Bool, true, false, some, List, [], ◌∷◌, ◌++◌, length, map, sym,
  append-nil, append_assoc, if◌then◌else◌,
}
use jellybean.Inference.Types.{InferenceResponse, no_response}
use jellybean.Model.Executor.{
  requests, Task, error_response, resolve, Executor, Batch, answer_task, answer_tasks, refuse_tasks,
  finish_batch,
}
use jellybean.Model.Executor.System.{Backend}
use jellybean.Base.Text.{codes}

module _ {ℓ} {Float : Type ℓ} where
  -- The responses of a backend with the promises of their tasks and the times of the way there, the
  -- first response for the first task and so on.
  abbrev pub answers_for : ℕ → Batch Float → List InferenceResponse → List (ℕ × InferenceResponse)
  answers_for execution_ns [] rs = []
  answers_for execution_ns (t ∷ ts) [] = []
  answers_for execution_ns ((t, wait_ns) ∷ ts) (r ∷ rs) =
      (
        t.promise,
        record r {
          routing_ns = t.routing_ns;
          queue_wait_ns = wait_ns;
          execution_ns = execution_ns;
        },
      )
      ∷ answers_for execution_ns ts rs

  -- The same error for each task.
  abbrev pub refusals_for : Batch Float → List (ℕ × InferenceResponse)
  refusals_for [] = []
  refusals_for ((t, wait_ns) ∷ ts) =
      (t.promise, record no_response { error = codes "backend unavailable" }) ∷ refusals_for ts

  -- The answers `rs`, one for each task of the batch and for its promise, stand behind the earlier
  -- answers, and nothing is put into the queue or taken from it.
  abbrev pub Answered :
      Executor Float → Batch Float → List (ℕ × InferenceResponse) → Executor Float → Type ℓ
  Answered e batch rs e' =
      (e'.queue ≡ e.queue)
      × (e'.answered ≡ e.answered ++ rs)
      × (map (λ r. r.0) rs ≡ map (λ t. t.0.promise) batch)

  Answered-next :
      (e e1 e' : Executor Float) (t : Task Float) (w : ℕ) (ts : Batch Float) (r : InferenceResponse)
      (rs : List (ℕ × InferenceResponse))
      → e1.queue ≡ e.queue
      → e1.answered ≡ e.answered ++ ((t.promise, r) ∷ [])
      → Answered e1 ts rs e'
      → Answered e ((t, w) ∷ ts) ((t.promise, r) ∷ rs) e'
  Answered-next e e1 e' t w ts r rs same first (kept, others, named) = (
    kept ∙ same,
    others ∙ ap (λ l. l ++ rs) first ∙ append_assoc e.answered ((t.promise, r) ∷ []) rs,
    ap (λ l. t.promise ∷ l) named,
  )

  Answered-none : (e : Executor Float) → Answered e [] [] e
  Answered-none e = (refl, sym (append-nil e.answered), refl)

  answer_tasks-Answered :
      (execution_ns : ℕ) (e : Executor Float) (batch : Batch Float) (rs : List InferenceResponse)
      → length rs ≡ length batch
      → (e' : Executor Float) × (answer_tasks execution_ns e batch rs ≡ some e')
        × Answered e batch (answers_for execution_ns batch rs) e'
  unfolding answer_tasks answer_task resolve
  answer_tasks-Answered execution_ns e [] rs h = (e, refl, Answered-none e)
  answer_tasks-Answered execution_ns e (t ∷ ts) [] h = absurd (omega arith)
  answer_tasks-Answered execution_ns e ((t, w) ∷ ts) (r ∷ rs) h =
      let e1 = answer_task execution_ns e (t, w) r in
      let (e', done, others) = answer_tasks-Answered execution_ns e1 ts rs (omega arith) in
      (e', done, Answered-next e e1 e' t w ts _ (answers_for execution_ns ts rs) refl refl others)

  refuse_tasks-Answered :
      (e : Executor Float) (batch : Batch Float)
      → Answered e batch (refusals_for batch) (refuse_tasks e batch)
  unfolding refuse_tasks resolve
  refuse_tasks-Answered e [] = Answered-none e
  refuse_tasks-Answered e ((t, w) ∷ ts) =
      let e1 = resolve e t.promise (error_response (codes "backend unavailable")) in
      Answered-next e e1 (refuse_tasks e1 ts) t w ts _ (refusals_for ts) refl refl
        (refuse_tasks-Answered e1 ts)

  length-requests : (batch : Batch Float) → length (requests batch) ≡ length batch
  length-requests [] = refl
  length-requests (t ∷ ts) = ap suc (length-requests ts)

  -- With a backend whose `infer_batch` gives a response for each request of a batch, a batch is
  -- always finished: the queue is as it was, and behind the earlier answers stands one for each task
  -- of the batch, for the promise of that task, in their order. It is the backend's response to the
  -- request of the task, with the three times, if the model is ready, and an error if it is not.
  pub finish_batch-Answered :
      (backend : Backend Float) (is_ready : Bool) (execution_ns : ℕ) (e : Executor Float)
      (batch : Batch Float)
      → (e' : Executor Float) × (finish_batch is_ready backend.infer_batch execution_ns e batch
          ≡ some e')
        × Answered e batch
            (if is_ready
              then answers_for execution_ns batch (backend.infer_batch (requests batch))
              else refusals_for batch)
            e'
  unfolding finish_batch
  finish_batch-Answered backend true execution_ns e batch =
      answer_tasks-Answered execution_ns e batch (backend.infer_batch (requests batch))
        (backend.answers_all (requests batch) ∙ length-requests batch)
  finish_batch-Answered backend false execution_ns e batch =
      (refuse_tasks e batch, refl, refuse_tasks-Answered e batch)
