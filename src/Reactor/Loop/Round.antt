-- ===== src/Reactor/Loop/Round.antt =====
-- What a round of the loop does to the queues of the reactor.
use mathlib.Core.Path.{subst}
use jellybean.Base.{
  ℕ, ◌≡◌, refl, sym, ap, ◌∙◌, Bool, false, Bool-cases, inl, inr, List, [], ◌∷◌, ◌++◌, append-nil,
  append_assoc, ◌==◌, ◌&&◌, not,
}
use jellybean.Reactor.TimerWheel
use jellybean.Reactor.TimerWheel.{TimerWheel, TimerEntry}
use jellybean.Reactor.Loop.{
  Action, schedules, adds_timer, stops, Backend, Reactor, schedule, act, act_all, schedule_all,
  timeout, visit, visit_all, call_timers, advance_timers, run_scratch, poll_backend,
}

chain : (x m n : List ℕ) {y z : List ℕ} → y ≡ x ++ m → z ≡ y ++ n → z ≡ x ++ (m ++ n)
chain x m n e e' = e' ∙ ap (λ (t : List ℕ). t ++ n) e ∙ append_assoc x m n

module _ {ℓ} {W : Type ℓ} where
  -- From the one state to the other, the loop has come to these handles, and all that was scheduled is
  -- behind what was in the run queue.
  pub record Adds (seen : List ℕ) (r r' : Reactor W) : Type ℓ where
    pub new : List ℕ
    pub queue : r'.run_queue ≡ r.run_queue ++ new
    pub asks : r'.asked ≡ r.asked ++ new
    pub visits : r'.visited ≡ r.visited ++ seen
    pub same_external : r'.external_queue ≡ r.external_queue
    pub same_pending : r'.external_pending ≡ r.external_pending

  Adds-none :
      (r : Reactor W) (world : W) (wheel : TimerWheel) (running : Bool)
      → Adds [] r (record r { world = world; timer_wheel = wheel; running = running })
  Adds-none r world wheel running = record {
    new = [];
    queue = sym (append-nil r.run_queue);
    asks = sym (append-nil r.asked);
    visits = sym (append-nil r.visited);
    same_external = refl;
    same_pending = refl;
  }

  Adds-then :
      (seen seen' : List ℕ) (r s t : Reactor W)
      → Adds seen r s
      → Adds seen' s t
      → Adds (seen ++ seen') r t
  Adds-then seen seen' r s t v w = record {
    new = v.new ++ w.new;
    queue = chain r.run_queue v.new w.new v.queue w.queue;
    asks = chain r.asked v.new w.new v.asks w.asks;
    visits = chain r.visited seen seen' v.visits w.visits;
    same_external = w.same_external ∙ v.same_external;
    same_pending = w.same_pending ∙ v.same_pending;
  }

  Adds-more : (seen : List ℕ) (r s t : Reactor W) → Adds seen r s → Adds [] s t → Adds seen r t
  Adds-more seen r s t v w =
      subst (λ (l : List ℕ). Adds l r t) (append-nil seen) (Adds-then seen [] r s t v w)

  schedule-Adds : (h : ℕ) (r : Reactor W) → Adds [] r (schedule h r)
  unfolding schedule
  schedule-Adds h r = record {
    new = h ∷ [];
    queue = refl;
    asks = refl;
    visits = sym (append-nil r.visited);
    same_external = refl;
    same_pending = refl;
  }

  act-Adds : (a : Action) (r : Reactor W) → Adds [] r (act a r)
  unfolding act
  act-Adds (schedules h) r = schedule-Adds h r
  act-Adds (adds_timer delay_ns cb) r =
      Adds-none r r.world (TimerWheel.add_timer r.timer_wheel delay_ns cb) r.running
  act-Adds stops r = Adds-none r r.world r.timer_wheel false

  act_all-Adds : (actions : List Action) (r : Reactor W) → Adds [] r (act_all actions r)
  unfolding act_all
  act_all-Adds [] r = Adds-none r r.world r.timer_wheel r.running
  act_all-Adds (a ∷ rest) r =
      Adds-then [] [] r (act a r) (act_all rest (act a r)) (act-Adds a r)
        (act_all-Adds rest (act a r))

  schedule_all-Adds : (hs : List ℕ) (r : Reactor W) → Adds [] r (schedule_all hs r)
  unfolding schedule_all
  schedule_all-Adds [] r = Adds-none r r.world r.timer_wheel r.running
  schedule_all-Adds (h ∷ hs) r =
      Adds-then [] [] r (schedule h r) (schedule_all hs (schedule h r)) (schedule-Adds h r)
        (schedule_all-Adds hs (schedule h r))

  seen-Adds :
      (h : ℕ) (r : Reactor W) (world : W)
      → Adds (h ∷ []) r (record r { world = world; visited = r.visited ++ (h ∷ []) })
  seen-Adds h r world = record {
    new = [];
    queue = sym (append-nil r.run_queue);
    asks = sym (append-nil r.asked);
    visits = refl;
    same_external = refl;
    same_pending = refl;
  }

module _ {ℓ} {W : Type ℓ} (b : Backend W) where
  visit-Adds : (h : ℕ) (r : Reactor W) → Adds (h ∷ []) r (visit b h r)
  unfolding visit
  visit-Adds h r = elim (Bool-cases (not (h == 0) && not (b.is_done r.world h))) [
    | inl live ↦ rw live (
        Adds-then (h ∷ []) [] r
          (record r { world = (b.resume r.world h).0; visited = r.visited ++ (h ∷ []) })
          (act_all (b.resume r.world h).1
            (record r { world = (b.resume r.world h).0; visited = r.visited ++ (h ∷ []) }))
          (seen-Adds h r (b.resume r.world h).0)
          (act_all-Adds (b.resume r.world h).1
            (record r { world = (b.resume r.world h).0; visited = r.visited ++ (h ∷ []) })))
    | inr over ↦ rw over (seen-Adds h r r.world)
  ]

  visit_all-Adds : (hs : List ℕ) (r : Reactor W) → Adds hs r (visit_all b hs r)
  unfolding visit_all
  visit_all-Adds [] r = Adds-none r r.world r.timer_wheel r.running
  visit_all-Adds (h ∷ hs) r =
      Adds-then (h ∷ []) hs r (visit b h r) (visit_all b hs (visit b h r)) (visit-Adds h r)
        (visit_all-Adds hs (visit b h r))

  call_timers-Adds : (es : List TimerEntry) (r : Reactor W) → Adds [] r (call_timers b es r)
  unfolding call_timers
  call_timers-Adds [] r = Adds-none r r.world r.timer_wheel r.running
  call_timers-Adds (e ∷ es) r =
      let (world, handles) = b.call r.world e.callback in
      let s = schedule_all handles (record r { world = world }) in
      Adds-then [] [] r s (call_timers b es s)
        (Adds-then [] [] r (record r { world = world }) s
          (Adds-none r world r.timer_wheel r.running)
          (schedule_all-Adds handles (record r { world = world })))
        (call_timers-Adds es s)

  advance_timers-Adds : (r : Reactor W) → Adds [] r (advance_timers b r)
  unfolding advance_timers
  advance_timers-Adds r =
      let (wheel, fired) = TimerWheel.advance r.timer_wheel (b.clock r.world) in
      Adds-then [] [] r (record r { timer_wheel = wheel })
        (call_timers b fired (record r { timer_wheel = wheel }))
        (Adds-none r r.world wheel r.running)
        (call_timers-Adds fired (record r { timer_wheel = wheel }))

  poll_backend-Adds : (r : Reactor W) → Adds [] r (poll_backend b r)
  unfolding poll_backend
  poll_backend-Adds r =
      let (world, actions) = b.poll r.world (timeout r) in
      Adds-then [] [] r (record r { world = world }) (act_all actions (record r { world = world }))
        (Adds-none r world r.timer_wheel r.running)
        (act_all-Adds actions (record r { world = world }))

  -- The round, but for the external queue, up to `poll` and with it.
  pub before_poll-Adds :
      (r : Reactor W)
      → Adds r.run_queue (record r { run_queue = [] }) (advance_timers b (run_scratch b r))
  unfolding run_scratch
  before_poll-Adds r =
      let after = visit_all b r.run_queue (record r { run_queue = [] }) in
      Adds-more r.run_queue (record r { run_queue = [] }) after (advance_timers b after)
        (visit_all-Adds r.run_queue (record r { run_queue = [] })) (advance_timers-Adds after)

  pub rest-Adds :
      (r : Reactor W)
      → Adds r.run_queue
          (record r { run_queue = [] })
          (poll_backend b (advance_timers b (run_scratch b r)))
  rest-Adds r =
      Adds-more r.run_queue (record r { run_queue = [] }) (advance_timers b (run_scratch b r))
        (poll_backend b (advance_timers b (run_scratch b r))) (before_poll-Adds r)
        (poll_backend-Adds (advance_timers b (run_scratch b r)))
