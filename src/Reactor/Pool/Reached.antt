-- ===== src/Reactor/Pool/Reached.antt =====
-- What holds in every state that the pool reaches.
use jellybean.Base.{ℕ, ◌<◌, ◌≡◌, arith, true, false, [], ◌++◌, length}
use jellybean.Reactor.Pool.{Pool, make_pool, count, Reach, here, then_step}
use jellybean.Reactor.Pool.Counts.{is_active, is_gone, count-all}
use jellybean.Reactor.Pool.Valid.{IsValid, make_pool-IsValid, step-IsValid}

pub reach-IsValid : {p q : Pool} → Reach p q → IsValid p → IsValid q
reach-IsValid here v = v
reach-IsValid (then_step r st) v = step-IsValid st (reach-IsValid r v)

-- Whatever the workers and the threads that post have done: the workers have begun the tasks in the
-- order in which they were posted, each once, and the others are in the queue. While no notification
-- is due, tasks wait only if some worker is in a task or about to look at the queue; and if no worker
-- is then, and the pool is stopped, all workers have ended and all tasks were begun.
pub Reach-NoTaskLost :
    (n : ℕ) (p : Pool)
    → 0 < n
    → Reach (make_pool n) p
    → (p.started ++ p.queue ≡ p.posted)
      × (count is_active p.workers ≡ 0 → p.due ≡ 0 → p.queue ≡ [])
      × (p.stopped ≡ true
          → p.all_due ≡ false
          → count is_active p.workers ≡ 0
          → (count is_gone p.workers ≡ length p.workers) × (p.queue ≡ []))
Reach-NoTaskLost n p pos r =
    let v = reach-IsValid r (make_pool-IsValid n pos) in
    (
      v.order,
      v.waiting,
      λ stopped told none.
          let all_gone : count is_gone p.workers ≡ length p.workers =
            omega (arith, v.halted stopped told, none, count-all p.workers) in
          (all_gone, (v.left (omega (arith, all_gone, v.some_worker))).1),
    )
