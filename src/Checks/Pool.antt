-- ===== src/Checks/Pool.antt =====
-- The pool of src/reactor/continuation_pool.cpp: a worker sleeps, is woken for a task, and the pool is
-- stopped.
use jellybean.Base.{◌≡◌, refl, true, false, arith, [], ◌++◌, length}
use jellybean.Reactor.Pool.{
  checking, asleep, Pool, make_pool, post, stop, notify_all, next_task, with_worker, count, posts,
  notifies_one, stops, notifies_all, checks, Reach, here, then_step,
}
use jellybean.Reactor.Pool.Counts.{is_active, is_gone}
use jellybean.Reactor.Pool.Reached.{Reach-NoTaskLost}
use jellybean.Reactor.Pool.Joins.{Joins, Reach-Joins}

abbrev sleeping : Pool
sleeping = with_worker (make_pool 1) [] asleep []

abbrev notified : Pool
unfolding post
notified = with_worker (record (post 7 sleeping) { due = 0 }) [] checking []

notified_reached : Reach (make_pool 1) notified
unfolding notified post next_task
notified_reached =
    then_step (then_step (then_step here (checks (make_pool 1) [] [] refl)) (posts sleeping 7 refl))
      (notifies_one (post 7 sleeping) [] [] 0 refl refl)

abbrev told : Pool
unfolding notified stop notify_all
told = notify_all (stop notified)

told_reached : Reach (make_pool 1) told
unfolding told notified stop notify_all
told_reached =
    then_step (then_step notified_reached (stops notified refl)) (notifies_all (stop notified) refl)

Reach-NoTaskLost_example :
    (told.started ++ told.queue ≡ told.posted)
    × (count is_active told.workers ≡ 0 → told.due ≡ 0 → told.queue ≡ [])
    × (told.stopped ≡ true
        → told.all_due ≡ false
        → count is_active told.workers ≡ 0
        → (count is_gone told.workers ≡ length told.workers) × (told.queue ≡ []))
Reach-NoTaskLost_example = Reach-NoTaskLost 1 told (omega arith) told_reached

told_Stopped : (told.stopped ≡ true) × (told.all_due ≡ false)
unfolding told notified stop notify_all
told_Stopped = (refl, refl)

Reach-Joins_example : Joins told
Reach-Joins_example = Reach-Joins 1 told (omega arith) told_reached told_Stopped.0 told_Stopped.1
