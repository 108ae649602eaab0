-- ===== src/Model/Executor/Places.antt =====
-- How often a promise is in the queue, in a batch and among the answers, and what the rounds of
-- `infer_async` and `worker_loop` change of it.
use jellybean.Base.{
  ℕ, ◌+◌, ◌≡◌, refl, sym, ap, ◌∙◌, arith, Bool, true, false, not, ◌&&◌, some, List, [], ◌∷◌, ◌++◌,
  length, ltb, if◌then◌else◌, ◌==◌,
}
use jellybean.Base.Int.{ℤ, ltb_ℤ}
use jellybean.Base.Text.{codes}
use jellybean.Inference.Types.{InferenceRequest, InferenceResponse}
use jellybean.Model.Executor.{has_task, has_entry}
use jellybean.Model.Executor.{
  requests, Task, Executor, Batch, count_received, error_response, resolve, enter, push_round,
  pop_round, collect_round, answer_task, answer_tasks, refuse_tasks, finish_batch,
}

abbrev pub hit : ℕ → ℕ → ℕ
hit i p = if i == p then 1 else 0

abbrev pub in_answers : ℕ → List (ℕ × InferenceResponse) → ℕ
in_answers i [] = 0
in_answers i ((p, r) ∷ rest) = hit i p + in_answers i rest

pub in_answers-append :
    (i : ℕ) (xs ys : List (ℕ × InferenceResponse))
    → in_answers i (xs ++ ys) ≡ in_answers i xs + in_answers i ys
in_answers-append i [] ys = omega arith
in_answers-append i ((p, r) ∷ xs) ys = omega (arith, in_answers-append i xs ys)

some-inj {ℓ} : {A : Type ℓ} {a b : A} → some a ≡ some b → a ≡ b
some-inj h = cc

-- A property of both branches.
pub both {ℓ κ} :
    {A : Type ℓ} (P : A → Type κ) (b : Bool) {x y : A} → P x → P y → P (if b then x else y)
both P true p q = p
both P false p q = q

module _ {ℓ} {Float : Type ℓ} where
  abbrev pub in_tasks : ℕ → List (Task Float) → ℕ
  in_tasks i [] = 0
  in_tasks i (t ∷ ts) = hit i t.promise + in_tasks i ts

  abbrev pub in_batch : ℕ → Batch Float → ℕ
  in_batch i [] = 0
  in_batch i ((t, w) ∷ ts) = hit i t.promise + in_batch i ts

  abbrev pub in_batches : ℕ → List (Batch Float) → ℕ
  in_batches i [] = 0
  in_batches i (b ∷ bs) = in_batch i b + in_batches i bs

  pub in_tasks-append :
      (i : ℕ) (xs ys : List (Task Float)) → in_tasks i (xs ++ ys) ≡ in_tasks i xs + in_tasks i ys
  in_tasks-append i [] ys = omega arith
  in_tasks-append i (t ∷ xs) ys = omega (arith, in_tasks-append i xs ys)

  in_batch-append :
      (i : ℕ) (xs ys : Batch Float) → in_batch i (xs ++ ys) ≡ in_batch i xs + in_batch i ys
  in_batch-append i [] ys = omega arith
  in_batch-append i ((t, w) ∷ xs) ys = omega (arith, in_batch-append i xs ys)

  pub in_batches-append :
      (i : ℕ) (xs ys : List (Batch Float))
      → in_batches i (xs ++ ys) ≡ in_batches i xs + in_batches i ys
  in_batches-append i [] ys = omega arith
  in_batches-append i (b ∷ xs) ys = omega (arith, in_batches-append i xs ys)

  -- How often the promise `i` is in the queue or resolved.
  abbrev pub held : ℕ → Executor Float → ℕ
  held i e = in_tasks i e.queue + in_answers i e.answered

  held-eq : (i : ℕ) (e e' : Executor Float) → e ≡ e' → held i e ≡ held i e'
  held-eq i e e' h = ap (held i) h

  resolve-held :
      (i : ℕ) (e : Executor Float) (p : ℕ) (r : InferenceResponse)
      → held i (resolve e p r) ≡ held i e + hit i p
  unfolding resolve
  resolve-held i e p r = omega (arith, in_answers-append i e.answered ((p, r) ∷ []))

  pub enter-held :
      (i : ℕ) (is_ready : Bool) (e : Executor Float) (t : Task Float)
      → held i (enter is_ready e t).0
        ≡ held i e + (if (enter is_ready e t).1 then 0 else hit i t.promise)
  unfolding enter
  enter-held i true e t = omega arith
  enter-held i false e t =
      resolve-held i (count_received e) t.promise
        (error_response (codes "model not ready: " ++ t.req.model_id))

  pub push_round-held :
      (i : ℕ) (late : Bool) (e : Executor Float) (t : Task Float)
      → held i (push_round late e t).0
        ≡ held i e + (if (push_round late e t).1 then 0 else hit i t.promise)
  unfolding push_round
  push_round-held i late e t = ground (
    arith,
    in_tasks-append i e.queue (t ∷ []),
    in_answers-append i e.answered ((t.promise, error_response (codes "executor stopped")) ∷ []),
    in_answers-append i e.answered (
        (t.promise, error_response (codes "queue full timeout for model: " ++ t.req.model_id))
        ∷ []),
  )

  pop_round-held :
      (i w : ℕ) (e : Executor Float) (batch : Batch Float) (ts : List (Task Float))
      → e.queue ≡ ts
      → held i (pop_round w e batch ts).0 + in_batch i (pop_round w e batch ts).1
        ≡ held i e + in_batch i batch
  unfolding pop_round
  pop_round-held i w e batch [] h = refl
  pop_round-held i w e batch (t ∷ ts) h =
      omega (arith, in_batch-append i batch ((t, w) ∷ []), ap (in_tasks i) h)

  pub collect_round-held :
      (i size wait_ns : ℕ) (delay elapsed : ℤ) (e : Executor Float) (batch : Batch Float)
      → held i (collect_round size delay elapsed wait_ns e batch).0.0
          + in_batch i (collect_round size delay elapsed wait_ns e batch).0.1
        ≡ held i e + in_batch i batch
  unfolding collect_round
  collect_round-held i size wait_ns delay elapsed e batch =
      both Same (not (ltb (length batch) size && not e.stopped)) {x = stays} refl (
        both Same (has_task e.queue) (pop_round-held i wait_ns e batch e.queue refl) (
          both Same (not (has_entry batch)) {x = stays} {y = waits} refl
            (both Same (not (ltb_ℤ elapsed delay)) {x = stays} {y = ((e, batch), true)} refl refl)))
    where
      stays : (Executor Float × Batch Float) × Bool
      stays = ((e, batch), false)

      waits : (Executor Float × Batch Float) × Bool
      waits = if not (ltb_ℤ elapsed delay) then stays else ((e, batch), true)

      Same : (Executor Float × Batch Float) × Bool → Type 0
      Same r = held i r.0.0 + in_batch i r.0.1 ≡ held i e + in_batch i batch

  answer_task-held :
      (i execution_ns : ℕ) (e : Executor Float) (t : Task Float) (w : ℕ) (r : InferenceResponse)
      → held i (answer_task execution_ns e (t, w) r) ≡ held i e + hit i t.promise
  unfolding answer_task
  answer_task-held i execution_ns e t w r = omega (
    arith,
    in_answers-append i e.answered (
        (
          t.promise,
          record r { routing_ns = t.routing_ns; queue_wait_ns = w; execution_ns = execution_ns },
        )
        ∷ []),
  )

  pub answer_tasks-held :
      (i execution_ns : ℕ) (e e' : Executor Float) (batch : Batch Float)
      (rs : List InferenceResponse)
      → answer_tasks execution_ns e batch rs ≡ some e'
      → held i e' ≡ held i e + in_batch i batch
  unfolding answer_tasks
  answer_tasks-held i execution_ns e e' [] rs h = omega (arith, held-eq i e e' (some-inj h))
  answer_tasks-held i execution_ns e e' (t ∷ ts) [] h = cc
  answer_tasks-held i execution_ns e e' ((t, w) ∷ ts) (r ∷ rs) h = omega (
    arith,
    answer_task-held i execution_ns e t w r,
    answer_tasks-held i execution_ns (answer_task execution_ns e (t, w) r) e' ts rs h,
  )

  pub refuse_tasks-held :
      (i : ℕ) (e : Executor Float) (batch : Batch Float)
      → held i (refuse_tasks e batch) ≡ held i e + in_batch i batch
  unfolding refuse_tasks
  refuse_tasks-held i e [] = omega arith
  refuse_tasks-held i e ((t, w) ∷ ts) = omega (
    arith,
    resolve-held i e t.promise (error_response (codes "backend unavailable")),
    refuse_tasks-held i (resolve e t.promise (error_response (codes "backend unavailable"))) ts,
  )

  pub finish_batch-held :
      (i : ℕ) (is_ready : Bool) (f : List (InferenceRequest Float) → List InferenceResponse)
      (execution_ns : ℕ) (e e' : Executor Float) (batch : Batch Float)
      → finish_batch is_ready f execution_ns e batch ≡ some e'
      → held i e' ≡ held i e + in_batch i batch
  unfolding finish_batch
  finish_batch-held i true f execution_ns e e' batch h =
      answer_tasks-held i execution_ns e e' batch (f (requests batch)) h
  finish_batch-held i false f execution_ns e e' batch h =
      sym (held-eq i (refuse_tasks e batch) e' (some-inj h)) ∙ refuse_tasks-held i e batch
