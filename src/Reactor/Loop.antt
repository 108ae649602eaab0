-- ===== src/Reactor/Loop.antt =====
-- `Reactor` of include/jellybean/reactor/reactor.hpp and src/reactor/reactor.cpp. What a coroutine, a
-- timer's callback and the backend's `poll` do is a parameter: they give the calls of the reactor that
-- they make. Other threads call `schedule` and `stop` between the rounds of `run`, and a callback only
-- schedules. `wakeup`, which ends a `poll` early, is left out.
pub mod Order
pub mod Round
use jellybean.Base.{
  ℕ, ◌+◌, ◌≡◌, Bool, true, false, List, [], ◌∷◌, ◌++◌, length, ltb, ◌==◌, ◌&&◌, not, if◌then◌else◌,
}
use jellybean.Base.Words.{add64, sub64}
use jellybean.Reactor.TimerWheel
use jellybean.Reactor.TimerWheel.{TimerWheel, TimerEntry}

-- A call of the reactor on its own thread. A coroutine's handle is its address, and 0 if it is null.
pub data Action : Type 0 where
  schedules : (h : ℕ) → Action
  adds_timer : (delay_ns callback : ℕ) → Action
  stops : Action

pub record Backend {ℓ} (W : Type ℓ) : Type ℓ where
  pub clock : W → ℕ
  pub is_done : W → ℕ → Bool
  pub resume : W → ℕ → W × List Action
  pub call : W → ℕ → W × List ℕ
  pub poll : W → ℕ → W × List Action

pub record Reactor {ℓ} (W : Type ℓ) : Type ℓ where
  pub world : W
  pub timer_wheel : TimerWheel
  pub run_queue : List ℕ
  pub external_queue : List ℕ
  pub external_pending : ℕ
  pub running : Bool
  pub asked : List ℕ  -- the handles of all calls of schedule
  pub visited : List ℕ  -- the handles that the loop has come to

-- The capacity of `external_queue_`.
abbrev pub external_capacity : ℕ
external_capacity = 1024

module _ {ℓ} {W : Type ℓ} where
  unfoldable pub stop : Reactor W → Reactor W
  stop r = record r { running = false }

  -- `schedule` on the reactor's thread, and on another one, which waits while there is no room.
  unfoldable pub schedule : ℕ → Reactor W → Reactor W
  schedule h r = record r { run_queue = r.run_queue ++ (h ∷ []); asked = r.asked ++ (h ∷ []) }

  unfoldable pub schedule_external : ℕ → Reactor W → Reactor W
  schedule_external h r = record r {
    external_queue = r.external_queue ++ (h ∷ []);
    external_pending = add64 r.external_pending 1;
    asked = r.asked ++ (h ∷ []);
  }

  unfoldable pub add_timer : ℕ → ℕ → Reactor W → Reactor W
  unfolding TimerWheel.add_timer
  add_timer delay_ns cb r = record r {
    timer_wheel = TimerWheel.add_timer r.timer_wheel delay_ns cb;
  }

  unfoldable pub act : Action → Reactor W → Reactor W
  unfolding schedule add_timer stop
  act (schedules h) r = schedule h r
  act (adds_timer delay_ns cb) r = add_timer delay_ns cb r
  act stops r = stop r

  unfoldable pub act_all : List Action → Reactor W → Reactor W
  unfolding act
  act_all [] r = r
  act_all (a ∷ rest) r = act_all rest (act a r)

  unfoldable pub schedule_all : List ℕ → Reactor W → Reactor W
  unfolding schedule
  schedule_all [] r = r
  schedule_all (h ∷ hs) r = schedule_all hs (schedule h r)

  -- The loop of `process_external_queue`, over what the queue holds.
  unfoldable pub take_external : List ℕ → Reactor W → Reactor W
  take_external [] r = record r { external_queue = [] }
  take_external (h ∷ hs) r = take_external hs (record r {
    external_queue = hs;
    run_queue = r.run_queue ++ (h ∷ []);
    external_pending = sub64 r.external_pending 1;
  })

  unfoldable pub process_external_queue : Reactor W → Reactor W
  unfolding take_external
  process_external_queue r = take_external r.external_queue r

  -- The timeout of the loop's `poll`.
  unfoldable pub timeout : Reactor W → ℕ
  timeout r = if (length r.run_queue == 0) && (r.external_pending == 0) then 1 else 0

module _ {ℓ} {W : Type ℓ} (b : Backend W) where
  unfoldable pub visit : ℕ → Reactor W → Reactor W
  unfolding act_all
  visit h r =
      let seen = record r { visited = r.visited ++ (h ∷ []) } in
      if not (h == 0) && not (b.is_done r.world h)
      then (let (world, actions) = b.resume r.world h in
          act_all actions (record seen { world = world }))
      else seen

  -- The loop over `scratch_queue_`.
  unfoldable pub visit_all : List ℕ → Reactor W → Reactor W
  unfolding visit
  visit_all [] r = r
  visit_all (h ∷ hs) r = visit_all hs (visit h r)

  unfoldable pub call_timers : List TimerEntry → Reactor W → Reactor W
  unfolding schedule_all
  call_timers [] r = r
  call_timers (e ∷ es) r =
      let (world, handles) = b.call r.world e.callback in
      call_timers es (schedule_all handles (record r { world = world }))

  unfoldable pub advance_timers : Reactor W → Reactor W
  unfolding TimerWheel.advance call_timers
  advance_timers r =
      let (wheel, fired) = TimerWheel.advance r.timer_wheel (b.clock r.world) in
      call_timers fired (record r { timer_wheel = wheel })

  unfoldable pub run_scratch : Reactor W → Reactor W
  unfolding visit_all
  run_scratch r = visit_all r.run_queue (record r { run_queue = [] })

  unfoldable pub poll_backend : Reactor W → Reactor W
  unfolding timeout act_all
  poll_backend r =
      let (world, actions) = b.poll r.world (timeout r) in
      act_all actions (record r { world = world })

  -- A round of the loop of `run`.
  unfoldable pub round : Reactor W → Reactor W
  unfolding process_external_queue run_scratch advance_timers poll_backend
  round r = poll_backend (advance_timers (run_scratch (process_external_queue r)))

  -- `run` up to its loop.
  unfoldable pub begin_run : Reactor W → Reactor W
  unfolding TimerWheel.initialize
  begin_run r = record r {
    running = true;
    timer_wheel = TimerWheel.initialize r.timer_wheel (b.clock r.world);
  }

  -- The loop of `run`, and the threads beside it.
  pub data Step : Reactor W → Reactor W → Type ℓ where
    runs : (r : Reactor W) → r.running ≡ true → Step r (round r)
    begins : (r : Reactor W) → Step r (begin_run r)
    other_schedules :
        (r : Reactor W) (h : ℕ)
        → ltb (length r.external_queue) external_capacity ≡ true
        → Step r (schedule_external h r)
    other_stops : (r : Reactor W) → Step r (stop r)

  pub data Reach (r : Reactor W) : Reactor W → Type ℓ where
    here : Reach r r
    then_step : {s t : Reactor W} → Reach r s → Step s t → Reach r t

module _ {ℓ} {W : Type ℓ} where
  abbrev pub make_reactor : W → Reactor W
  make_reactor world = record {
    world = world;
    timer_wheel = TimerWheel.make;
    run_queue = [];
    external_queue = [];
    external_pending = 0;
    running = false;
    asked = [];
    visited = [];
  }
