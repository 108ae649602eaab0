-- ===== src/Reactor/Pool/Joins.antt =====
-- The destructor of the pool joins its workers.
use jellybean.Base.{
  ℕ, zero, suc, ◌+◌, ◌*◌, ◌<◌, ◌≡◌, refl, ap, ◌∙◌, arith, true, false, ◌⊎◌, inl, inr, dec_lt, List,
  [], ◌∷◌, ◌++◌, length,
}
use jellybean.Reactor.Pool.{
  Worker, checking, asleep, busy, gone, Pool, make_pool, next_task, with_worker, is_asleep, count,
  Step, posts, notifies_one, notifies_none, stops, notifies_all, wakes, checks, finishes, Reach,
}
use jellybean.Reactor.Pool.Counts.{is_active, is_gone, count-all, count-middle}
use jellybean.Reactor.Pool.Valid.{IsValid, make_pool-IsValid, step-IsValid}
use jellybean.Reactor.Pool.Reached.{reach-IsValid}

-- What a worker has left to do, but for the tasks in the queue.
abbrev pub left_for : Worker → ℕ
left_for checking = 1
left_for asleep = 0
left_for (busy task) = 2
left_for gone = 0

abbrev pub left_to_do : Pool → ℕ
left_to_do p = 2 * length p.queue + count left_for p.workers + p.due

next_task-stopped : (queue : List ℕ) (p : Pool) → (next_task queue p).1.stopped ≡ p.stopped
unfolding next_task
next_task-stopped [] p = refl
next_task-stopped (task ∷ rest) p = refl

next_task-all_due : (queue : List ℕ) (p : Pool) → (next_task queue p).1.all_due ≡ p.all_due
unfolding next_task
next_task-all_due [] p = refl
next_task-all_due (task ∷ rest) p = refl

module _ {p : Pool} (stopped : p.stopped ≡ true) (told : p.all_due ≡ false) (v : IsValid p) where
  none_asleep : (before after : List Worker) → p.workers ≡ before ++ (asleep ∷ after) → ⊥
  none_asleep before after h = omega (
    arith,
    v.halted stopped told,
    ap (count is_asleep) h,
    count-middle is_asleep before after asleep,
  )

  next_task-shrinks :
      (before after : List Worker) (queue : List ℕ)
      → p.workers ≡ before ++ (checking ∷ after)
      → p.queue ≡ queue
      → left_to_do (with_worker (next_task queue p).1 before (next_task queue p).0 after)
        < left_to_do p
  unfolding next_task
  next_task-shrinks before after [] h e = rw stopped (
      omega (
        arith,
        ap length e,
        ap (count left_for) h,
        count-middle left_for before after checking,
        count-middle left_for before after gone,
      ))
  next_task-shrinks before after (task ∷ rest) h e = omega (
    arith,
    ap length e,
    ap (count left_for) h,
    count-middle left_for before after checking,
    count-middle left_for before after (busy task),
  )

  step-Stopped : {q : Pool} → Step p q → (q.stopped ≡ true) × (q.all_due ≡ false)
  unfolding next_task
  step-Stopped (posts p task h) = absurd (ground (arith, stopped, h))
  step-Stopped (notifies_one p before after n d h) = (stopped, told)
  step-Stopped (notifies_none p n d h) = (stopped, told)
  step-Stopped (stops p h) = absurd (ground (arith, stopped, h))
  step-Stopped (notifies_all p h) = absurd (ground (arith, told, h))
  step-Stopped (wakes p before after h) = (stopped, told)
  step-Stopped (checks p before after h) =
      (next_task-stopped p.queue p ∙ stopped, next_task-all_due p.queue p ∙ told)
  step-Stopped (finishes p before after task h) = (stopped, told)

  step-shrinks : {q : Pool} → Step p q → left_to_do q < left_to_do p
  step-shrinks (posts p task h) = absurd (ground (arith, stopped, h))
  step-shrinks (notifies_one p before after n d h) = absurd (none_asleep before after h)
  step-shrinks (notifies_none p n d h) = omega (arith, d)
  step-shrinks (stops p h) = absurd (ground (arith, stopped, h))
  step-shrinks (notifies_all p h) = absurd (ground (arith, told, h))
  step-shrinks (wakes p before after h) = absurd (none_asleep before after h)
  step-shrinks (checks p before after h) = next_task-shrinks before after p.queue h refl
  step-shrinks (finishes p before after task h) = omega (
    arith,
    ap (count left_for) h,
    count-middle left_for before after (busy task),
    count-middle left_for before after checking,
  )

-- A worker that is not asleep and has not ended.
abbrev Active : List Worker → Type 0
Active ws =
    (before : List Worker) × (after : List Worker) × ((ws ≡ before ++ (checking ∷ after))
      ⊎ (task : ℕ) × (ws ≡ before ++ (busy task ∷ after)))

Active-behind : (w : Worker) (ws : List Worker) → Active ws → Active (w ∷ ws)
Active-behind w ws (before, after, inl e) = (w ∷ before, after, inl (ap (λ l. w ∷ l) e))
Active-behind w ws (before, after, inr (task, e)) =
    (w ∷ before, after, inr (task, ap (λ l. w ∷ l) e))

find_Active : (ws : List Worker) → 0 < count is_active ws → Active ws
find_Active [] some = absurd (omega (arith, some))
find_Active (checking ∷ ws) some = ([], ws, inl refl)
find_Active (asleep ∷ ws) some = Active-behind asleep ws (find_Active ws (omega (arith, some)))
find_Active (busy task ∷ ws) some = ([], ws, inr (task, refl))
find_Active (gone ∷ ws) some = Active-behind gone ws (find_Active ws (omega (arith, some)))

Active-step : (p : Pool) → Active p.workers → (q : Pool) × Step p q
Active-step p (before, after, inl e) = (
  with_worker (next_task p.queue p).1 before (next_task p.queue p).0 after,
  checks p before after e,
)
Active-step p (before, after, inr (task, e)) =
    (with_worker p before checking after, finishes p before after task e)

-- Whatever steps are taken, and some can be, all workers end after finitely many, and the queue is
-- empty then.
pub data Joins : Pool → Type 0 where
  joined : {p : Pool} → count is_gone p.workers ≡ length p.workers → p.queue ≡ [] → Joins p
  waits : {p : Pool} (q : Pool) → Step p q → ((r : Pool) → Step p r → Joins r) → Joins p

joins :
    (n : ℕ) (p : Pool)
    → left_to_do p < n
    → p.stopped ≡ true
    → p.all_due ≡ false
    → IsValid p
    → Joins p
joins zero p lt stopped told v = absurd (omega (arith, lt))
joins (suc n) p lt stopped told v = elim (dec_lt 0 (count is_active p.workers)) [
  | yes some ↦
      let (q, st) = Active-step p (find_Active p.workers some) in
      waits q st (λ r st'.
        joins n r (omega (arith, lt, step-shrinks stopped told v st'))
          (step-Stopped stopped told v st').0 (step-Stopped stopped told v st').1
          (step-IsValid st' v))
  | no none ↦
      let all_gone : count is_gone p.workers ≡ length p.workers =
        omega (arith, none, v.halted stopped told, count-all p.workers) in
      joined all_gone (v.left (omega (arith, all_gone, v.some_worker))).1
]

-- The destructor returns: once it has called notify_all, the workers run the tasks that are left and
-- end, in whatever order they go on.
pub Reach-Joins :
    (n : ℕ) (p : Pool)
    → 0 < n
    → Reach (make_pool n) p
    → p.stopped ≡ true
    → p.all_due ≡ false
    → Joins p
Reach-Joins n p pos r stopped told =
    joins (suc (left_to_do p)) p (omega arith) stopped told
      (reach-IsValid r (make_pool-IsValid n pos))
