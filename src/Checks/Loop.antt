-- ===== src/Checks/Loop.antt =====
-- The loop of src/reactor/reactor.cpp: another thread schedules the coroutine 1, which schedules 2 and
-- sets a timer.
use jellybean.Base.{ℕ, ◌+◌, ◌<◌, ◌≡◌, refl, [], ◌∷◌, ◌++◌, length, ltb, ◌==◌, if◌then◌else◌}
use jellybean.Reactor.Loop.{
  Backend, Reactor, schedules, adds_timer, schedule_external, timeout, round, begin_run,
  make_reactor, begins, other_schedules, Reach, here, then_step,
}
use jellybean.Reactor.Loop.Order.{waiting, at_poll, Reach-InOrder}

-- The world counts what was resumed.
abbrev backend : Backend ℕ
backend = record {
  clock = λ w. w;
  is_done = λ w h. ltb 4 w;
  resume = λ w h. (w + 1, if h == 1 then schedules 2 ∷ adds_timer 5 9 ∷ [] else []);
  call = λ w cb. (w, cb ∷ []);
  poll = λ w t. (w, []);
}

abbrev ready : Reactor ℕ
unfolding begin_run schedule_external
ready = schedule_external 1 (begin_run backend (make_reactor 0))

ready_reached : Reach backend (make_reactor 0) ready
unfolding ready begin_run
ready_reached =
    then_step (then_step here (begins (make_reactor 0)))
      (other_schedules (begin_run backend (make_reactor 0)) 1 refl)

resumed : (round backend ready).visited ≡ 1 ∷ []
unfolding ready round
resumed = refl

left_waiting : waiting (round backend ready) ≡ 2 ∷ []
unfolding ready round
left_waiting = refl

Reach-InOrder_example :
    (ready.visited ++ waiting ready ≡ ready.asked)
    × (0 < length (waiting (at_poll backend ready)) → timeout (at_poll backend ready) ≡ 0)
    × ((round backend ready).visited ≡ ready.visited ++ waiting ready)
    × ((round backend ready).asked ≡ ready.asked ++ waiting (round backend ready))
Reach-InOrder_example = Reach-InOrder backend 0 ready ready_reached
