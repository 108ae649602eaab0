-- ===== src/Model/Executor/Conserve.antt =====
-- Where the requests of an executor are: no round of `infer_async` or `worker_loop` loses one or
-- answers it twice.
use jellybean.Base.{
  ℕ, zero, suc, ◌+◌, ◌≡◌, refl, sym, ap, ◌∙◌, arith, Bool, true, false, List, [], ◌∷◌, ◌++◌, length,
  ltb, if◌then◌else◌,
}
use jellybean.Model.Executor.{
  Task, Executor, Batch, make, start, stop, enter, push_round, collect_round,
}
use jellybean.Model.Executor.System.{
  Backend, System, idle_workers, AllIdle, after_enter, after_push, Step, submit, push, collect,
  finish, halt, resume, initial, Reach, here, then_step,
}
use jellybean.Model.Executor.Places.{
  hit, in_tasks, in_batch, in_batches, held, in_tasks-append, in_batches-append, enter-held,
  push_round-held, collect_round-held, finish_batch-held,
}

submitted : (i n : ℕ) → (if ltb i (n + 1) then 1 else 0) ≡ (if ltb i n then 1 else 0) + hit i n
submitted i n = ground arith

module _ {ℓ} {Float : Type ℓ} where
  -- In how many places the promise `i` is: with a client, in the queue, with a worker, or resolved.
  abbrev pub places : ℕ → System Float → ℕ
  places i s = in_tasks i s.waiting + held i s.executor + in_batches i s.working

  -- The promises of the requests made so far are in one place each, and no others are in any.
  abbrev pub IsConserved : System Float → Type 0
  IsConserved s = (i : ℕ) → places i s ≡ (if ltb i s.next then 1 else 0)

  after_enter-places :
      (i : ℕ) (s : System Float) (t : Task Float) (r : Executor Float × Bool)
      → held i r.0 ≡ held i s.executor + (if r.1 then 0 else hit i t.promise)
      → places i (after_enter s t r) ≡ places i s + hit i t.promise
  after_enter-places i s t (e, true) h = omega (arith, h, in_tasks-append i s.waiting (t ∷ []))
  after_enter-places i s t (e, false) h = omega (arith, h)

  after_push-places :
      (i : ℕ) (s : System Float) (before after : List (Task Float)) (t : Task Float)
      (r : Executor Float × Bool)
      → s.waiting ≡ before ++ (t ∷ after)
      → held i r.0 ≡ held i s.executor + (if r.1 then 0 else hit i t.promise)
      → places i (after_push s before after r) ≡ places i s
  after_push-places i s before after t (e, true) w h = omega (arith, h)
  after_push-places i s before after t (e, false) w h = omega (
    arith,
    h,
    ap (in_tasks i) w,
    in_tasks-append i before (t ∷ after),
    in_tasks-append i before after,
  )

  -- A batch of a worker and the executor, changed together.
  batch-places :
      (i : ℕ) (s : System Float) (before after : List (Batch Float)) (b b' : Batch Float)
      (e : Executor Float)
      → s.working ≡ before ++ (b ∷ after)
      → held i e + in_batch i b' ≡ held i s.executor + in_batch i b
      → places i (record s { executor = e; working = before ++ (b' ∷ after) }) ≡ places i s
  batch-places i s before after b b' e w h = omega (
    arith,
    ap (in_batches i) w,
    in_batches-append i before (b ∷ after),
    in_batches-append i before (b' ∷ after),
  )

  idle-in_batch : (i : ℕ) (b : Batch Float) → length b ≡ 0 → in_batch i b ≡ 0
  idle-in_batch i [] h = refl
  idle-in_batch i (t ∷ ts) h = absurd (omega arith)

  AllIdle-in_batches : (i : ℕ) (bs : List (Batch Float)) → AllIdle bs → in_batches i bs ≡ 0
  AllIdle-in_batches i [] h = refl
  AllIdle-in_batches i (b ∷ bs) h =
      omega (arith, idle-in_batch i b h.0, AllIdle-in_batches i bs h.1)

  idle_workers-in_batches :
      (i n : ℕ) (bs : List (Batch Float)) → bs ≡ idle_workers n → in_batches i bs ≡ 0
  idle_workers-in_batches i zero bs h = ap (in_batches i) h
  idle_workers-in_batches i (suc n) bs h =
      ap (in_batches i) h ∙ omega (arith, idle_workers-in_batches i n (idle_workers n) refl)

  stop-held : (i : ℕ) (e : Executor Float) → held i (stop e) ≡ held i e
  unfolding stop
  stop-held i e = ground arith

  start-held : (i : ℕ) (e : Executor Float) → held i (start e) ≡ held i e
  unfolding start
  start-held i e = ground arith

  after_enter-next :
      (s : System Float) (t : Task Float) (r : Executor Float × Bool)
      → (after_enter s t r).next ≡ s.next + 1
  after_enter-next s t (e, true) = refl
  after_enter-next s t (e, false) = refl

  after_push-next :
      (s : System Float) (before after : List (Task Float)) (r : Executor Float × Bool)
      → (after_push s before after r).next ≡ s.next
  after_push-next s before after (e, true) = refl
  after_push-next s before after (e, false) = refl

  counts :
      (i : ℕ) (s : System Float) (t : Task Float) (r : Executor Float × Bool)
      → t.promise ≡ s.next
      → (if ltb i (after_enter s t r).next then 1 else 0)
        ≡ (if ltb i s.next then 1 else 0) + hit i t.promise
  counts i s t r e =
      ap (λ n. if ltb i n then 1 else 0) (after_enter-next s t r)
      ∙ (submitted i s.next ∙ ap (λ p. (if ltb i s.next then 1 else 0) + hit i p) (sym e))

  Step-IsConserved :
      (backend : Backend Float) {s s' : System Float}
      → Step backend s s'
      → IsConserved s
      → IsConserved s'
  Step-IsConserved backend (submit s t is_ready e) c i = omega (
    arith,
    c i,
    after_enter-places i s t (enter is_ready s.executor t) (enter-held i is_ready s.executor t),
    counts i s t (enter is_ready s.executor t) e,
  )
  Step-IsConserved backend (push s before after t late w) c i =
      after_push-places i s before after t (push_round late s.executor t) w
        (push_round-held i late s.executor t)
      ∙ (c i
          ∙ ap (λ n. if ltb i n then 1 else 0)
              (sym (after_push-next s before after (push_round late s.executor t))))
  Step-IsConserved backend (collect s before after b size wait_ns delay elapsed w) c i =
      batch-places i s before after b (collect_round size delay elapsed wait_ns s.executor b).0.1
        (collect_round size delay elapsed wait_ns s.executor b).0.0 w
        (collect_round-held i size wait_ns delay elapsed s.executor b)
      ∙ c i
  Step-IsConserved backend (finish s before after b is_ready execution_ns e w pos done) c i =
      batch-places i s before after b [] e w (
        omega (
          arith,
          finish_batch-held i is_ready backend.infer_batch execution_ns s.executor e b done,
        ))
      ∙ c i
  Step-IsConserved backend (halt s) c i = omega (arith, c i, stop-held i s.executor)
  Step-IsConserved backend (resume s idle stopped) c i = omega (
    arith,
    c i,
    start-held i s.executor,
    AllIdle-in_batches i s.working idle,
    idle_workers-in_batches i s.executor.num_workers (idle_workers s.executor.num_workers) refl,
  )

  initial-IsConserved :
      (num_workers : ℕ) (s : System Float) → s ≡ initial num_workers → IsConserved s
  unfolding make
  initial-IsConserved num_workers s e i = rw e (ground arith)

  -- In every state that an executor reaches from its construction, each request made so far is in
  -- exactly one place: with its client, in the queue, in the batch of a worker, or answered.
  pub Reach-IsConserved :
      (backend : Backend Float) (num_workers : ℕ) {s : System Float}
      → Reach backend (initial num_workers) s
      → IsConserved s
  Reach-IsConserved backend num_workers here =
      initial-IsConserved num_workers (initial num_workers) refl
  Reach-IsConserved backend num_workers (then_step r st) =
      Step-IsConserved backend st (Reach-IsConserved backend num_workers r)
