-- ===== src/Reactor/Pool/Valid.antt =====
-- What holds between two steps of the pool.
use jellybean.Base.{
  ℕ, ◌+◌, ◌<◌, ◌≡◌, refl, sym, ap, ◌∙◌, arith, true, false, Bool-cases, ◌⊎◌, inl, inr, List, [],
  ◌∷◌, ◌++◌, length, append_assoc, if◌then◌else◌,
}
use jellybean.Reactor.Pool.{
  Worker, checking, asleep, busy, gone, Pool, make_pool, post, stop, wake, notify_all, next_task,
  with_worker, is_asleep, count, Step, posts, notifies_one, notifies_none, stops, notifies_all,
  wakes, checks, finishes,
}
use jellybean.Reactor.Pool.Counts.{
  is_active, is_gone, count-all, count-middle, length-middle, wake-asleep, wake-gone, wake-length,
  new_workers-length, new_workers-gone, new_workers-asleep,
}

-- Tasks wait only while some worker will look at the queue, or a notification is due; a worker leaves
-- a stopped pool with an empty queue; no worker sleeps through the destructor's notify_all.
pub record IsValid (p : Pool) : Type 0 where
  pub some_worker : 0 < length p.workers
  pub order : p.started ++ p.queue ≡ p.posted
  pub waiting : count is_active p.workers ≡ 0 → p.due ≡ 0 → p.queue ≡ []
  pub left : 0 < count is_gone p.workers → (p.stopped ≡ true) × (p.queue ≡ [])
  pub halted : p.stopped ≡ true → p.all_due ≡ false → count is_asleep p.workers ≡ 0

pub make_pool-IsValid : (n : ℕ) → 0 < n → IsValid (make_pool n)
make_pool-IsValid n pos = record {
  some_worker = omega (arith, pos, new_workers-length n);
  order = refl;
  waiting = λ e due. refl;
  left = λ g. absurd (omega (arith, g, new_workers-gone n));
  halted = λ e e'. new_workers-asleep n;
}

post-IsValid : (p : Pool) (task : ℕ) → p.stopped ≡ false → IsValid p → IsValid (post task p)
unfolding post
post-IsValid p task h v = record {
  some_worker = v.some_worker;
  order =
      sym (append_assoc p.started p.queue (task ∷ []))
      ∙ ap (λ (ts : List ℕ). ts ++ (task ∷ [])) v.order;
  waiting = λ e due. absurd (omega (arith, due));
  left = λ g. ground (arith, v.left g, h);
  halted = v.halted;
}

-- A worker that is woken up, or is done with a task.
checking-IsValid :
    (p : Pool) (before after : List Worker) (w : Worker) (n : ℕ)
    → p.workers ≡ before ++ (w ∷ after)
    → is_gone w ≡ 0
    → IsValid p
    → IsValid (with_worker (record p { due = n }) before checking after)
checking-IsValid p before after w n h g v = record {
  some_worker = omega (arith, length-middle before after checking);
  order = v.order;
  waiting = λ e due. absurd (omega (arith, e, count-middle is_active before after checking));
  left = λ some. v.left (
      omega (
        arith,
        some,
        count-middle is_gone before after checking,
        count-middle is_gone before after w,
        ap (count is_gone) h,
        g,
      ));
  halted = λ e e'. omega (
    arith,
    v.halted e e',
    count-middle is_asleep before after checking,
    count-middle is_asleep before after w,
    ap (count is_asleep) h,
  );
}

notifies_none-IsValid :
    (p : Pool) (n : ℕ) → count is_asleep p.workers ≡ 0 → IsValid p → IsValid (record p { due = n })
notifies_none-IsValid p n none_asleep v = record {
  some_worker = v.some_worker;
  order = v.order;
  waiting = λ e due. (v.left (omega (arith, e, none_asleep, count-all p.workers, v.some_worker))).1;
  left = v.left;
  halted = v.halted;
}

stop-IsValid : (p : Pool) → IsValid p → IsValid (stop p)
unfolding stop
stop-IsValid p v = record {
  some_worker = v.some_worker;
  order = v.order;
  waiting = v.waiting;
  left = λ g. (refl, (v.left g).1);
  halted = λ e e'. ground (arith, e');
}

notify_all-IsValid : (p : Pool) → IsValid p → IsValid (notify_all p)
unfolding notify_all
notify_all-IsValid p v = record {
  some_worker = omega (arith, v.some_worker, wake-length p.workers);
  order = v.order;
  waiting = λ e due.
      (v.left (
        omega (
          arith,
          e,
          wake-asleep p.workers,
          count-all (wake p.workers),
          wake-length p.workers,
          wake-gone p.workers,
          v.some_worker,
        ))).1;
  left = λ g. v.left (omega (arith, g, wake-gone p.workers));
  halted = λ e e'. wake-asleep p.workers;
}

module _ (p : Pool) (before after : List Worker) (h : p.workers ≡ before ++ (checking ∷ after))
    (v : IsValid p) where
  -- How many workers of a kind there are, when the one that looks becomes another.
  recount :
      (f : Worker → ℕ) (w : Worker)
      → count f (before ++ (w ∷ after)) + f checking ≡ count f p.workers + f w
  recount f w =
      omega
        (arith, count-middle f before after w, count-middle f before after checking, ap (count f) h)

  idle-IsValid :
      (w : Worker)
      → p.queue ≡ []
      → (is_gone w ≡ 0 ⊎ p.stopped ≡ true)
      → (p.stopped ≡ true → is_asleep w ≡ 0)
      → IsValid (with_worker p before w after)
  idle-IsValid w e stays awake = record {
    some_worker = omega (arith, length-middle before after w);
    order = v.order;
    waiting = λ none due. e;
    left = λ some. elim stays [
      | inl not_gone ↦ v.left (omega (arith, some, not_gone, recount is_gone w))
      | inr stopped ↦ (stopped, e)
    ];
    halted = λ e e'. omega (arith, v.halted e e', awake e, recount is_asleep w);
  }

  next_task-IsValid :
      (queue : List ℕ)
      → p.queue ≡ queue
      → IsValid (with_worker (next_task queue p).1 before (next_task queue p).0 after)
  unfolding next_task
  next_task-IsValid [] e =
      idle-IsValid (if p.stopped then gone else asleep) e
        (elim (Bool-cases p.stopped) [ inl stopped ↦ inr stopped | inr runs ↦ inl (rw runs refl) ])
        (λ stopped. rw stopped refl)
  next_task-IsValid (task ∷ rest) e = record {
    some_worker = omega (arith, length-middle before after (busy task));
    order =
        append_assoc p.started (task ∷ []) rest
        ∙ ap (λ (ts : List ℕ). p.started ++ ts) (sym e)
        ∙ v.order;
    waiting = λ none due.
        let no_active : count is_active (before ++ (busy task ∷ after)) ≡ 0 = none in
        absurd (omega (arith, no_active, count-middle is_active before after (busy task)));
    left = λ some. ground (arith, e, v.left (omega (arith, some, recount is_gone (busy task))));
    halted = λ s s'. omega (arith, v.halted s s', recount is_asleep (busy task));
  }

pub step-IsValid : {p q : Pool} → Step p q → IsValid p → IsValid q
step-IsValid (posts p task h) v = post-IsValid p task h v
step-IsValid (notifies_one p before after n d h) v =
    checking-IsValid p before after asleep n h refl v
step-IsValid (notifies_none p n d h) v = notifies_none-IsValid p n h v
step-IsValid (stops p h) v = stop-IsValid p v
step-IsValid (notifies_all p h) v = notify_all-IsValid p v
step-IsValid (wakes p before after h) v = checking-IsValid p before after asleep p.due h refl v
step-IsValid (checks p before after h) v = next_task-IsValid p before after h v p.queue refl
step-IsValid (finishes p before after task h) v =
    checking-IsValid p before after (busy task) p.due h refl v
