-- ===== src/Reactor/Loop/Order.antt =====
-- The loop comes to the coroutines in the order in which they were scheduled.
use jellybean.Base.{
  ℕ, ◌≤◌, ◌<◌, ◌≡◌, refl, sym, ap, ◌∙◌, arith, true, List, [], ◌∷◌, ◌++◌, append-nil, append_assoc,
  length, length-append, ltb,
}
use jellybean.Base.Words.{sub64}
use jellybean.Reactor.Loop.{
  Backend, Reactor, external_capacity, stop, schedule_external, take_external,
  process_external_queue, timeout, run_scratch, advance_timers, round, begin_run, make_reactor,
  Step, runs, begins, other_schedules, other_stops, Reach, here, then_step,
}
use jellybean.Reactor.Loop.Round.{before_poll-Adds, rest-Adds}

module _ {ℓ} {W : Type ℓ} where
  -- The handles that wait, in the order in which the loop comes to them.
  abbrev pub waiting : Reactor W → List ℕ
  waiting r = r.run_queue ++ r.external_queue

  pub record IsValid (r : Reactor W) : Type ℓ where
    pub order : r.visited ++ waiting r ≡ r.asked
    pub pending : r.external_pending ≡ length r.external_queue
    pub room : length r.external_queue ≤ external_capacity

  -- What `process_external_queue` leaves.
  pub record Taken (hs : List ℕ) (r r' : Reactor W) : Type ℓ where
    pub queue : r'.run_queue ≡ r.run_queue ++ hs
    pub external : r'.external_queue ≡ []
    pub pending : r'.external_pending ≡ 0
    pub asks : r'.asked ≡ r.asked
    pub visits : r'.visited ≡ r.visited

  take_external-Taken :
      (hs : List ℕ) (r : Reactor W)
      → r.external_pending ≡ length hs
      → length hs ≤ external_capacity
      → Taken hs r (take_external hs r)
  unfolding take_external
  take_external-Taken [] r e room = record {
    queue = sym (append-nil r.run_queue);
    external = refl;
    pending = e;
    asks = refl;
    visits = refl;
  }
  take_external-Taken (h ∷ hs) r e room =
      let t =
        take_external-Taken hs
          (record r {
            external_queue = hs;
            run_queue = r.run_queue ++ (h ∷ []);
            external_pending = sub64 r.external_pending 1;
          })
          (let k : sub64 r.external_pending 1 ≡ length hs = omega (arith, e, room) in k)
          (omega (arith, room)) in
      record {
        queue = t.queue ∙ append_assoc r.run_queue (h ∷ []) hs;
        external = t.external;
        pending = t.pending;
        asks = t.asks;
        visits = t.visits;
      }

module _ {ℓ} {W : Type ℓ} (b : Backend W) where
  pub record Rounds (r r' : Reactor W) : Type ℓ where
    pub visits : r'.visited ≡ r.visited ++ waiting r
    pub asks : r'.asked ≡ r.asked ++ r'.run_queue
    pub external : r'.external_queue ≡ []
    pub pending : r'.external_pending ≡ 0

  round-Rounds : (r : Reactor W) → IsValid r → Rounds r (round b r)
  unfolding round process_external_queue
  round-Rounds r v =
      let t = take_external-Taken r.external_queue r v.pending v.room in
      let s = take_external r.external_queue r in
      let k = rest-Adds b s in
      record {
        visits =
            k.visits
            ∙ ap (λ (l : List ℕ). l ++ s.run_queue) t.visits
            ∙ ap (λ (l : List ℕ). r.visited ++ l) t.queue;
        asks =
            k.asks
            ∙ ap (λ (l : List ℕ). l ++ k.new) t.asks
            ∙ ap (λ (l : List ℕ). r.asked ++ l) (sym k.queue);
        external = k.same_external ∙ t.external;
        pending = k.same_pending ∙ t.pending;
      }

  round-IsValid : (r : Reactor W) → IsValid r → IsValid (round b r)
  round-IsValid r v =
      let k = round-Rounds r v in
      record {
        order =
            ap (λ (l : List ℕ). (round b r).visited ++ ((round b r).run_queue ++ l)) k.external
            ∙ ap (λ (l : List ℕ). (round b r).visited ++ l) (append-nil (round b r).run_queue)
            ∙ ap (λ (l : List ℕ). l ++ (round b r).run_queue) (k.visits ∙ v.order)
            ∙ sym k.asks;
        pending = k.pending ∙ sym (ap length k.external);
        room = omega (arith, ap length k.external);
      }

  schedule_external-IsValid :
      (r : Reactor W) (h : ℕ)
      → ltb (length r.external_queue) external_capacity ≡ true
      → IsValid r
      → IsValid (schedule_external h r)
  unfolding schedule_external
  schedule_external-IsValid r h room v = record {
    order =
        ap (λ (l : List ℕ). r.visited ++ l)
          (sym (append_assoc r.run_queue r.external_queue (h ∷ [])))
        ∙ sym (append_assoc r.visited (waiting r) (h ∷ []))
        ∙ ap (λ (l : List ℕ). l ++ (h ∷ [])) v.order;
    pending = ground (arith, room, v.pending, length-append r.external_queue (h ∷ []));
    room = ground (arith, room, length-append r.external_queue (h ∷ []));
  }

  step-IsValid : {r s : Reactor W} → Step b r s → IsValid r → IsValid s
  unfolding begin_run stop
  step-IsValid (runs r running) v = round-IsValid r v
  step-IsValid (begins r) v = record { order = v.order; pending = v.pending; room = v.room }
  step-IsValid (other_schedules r h room) v = schedule_external-IsValid r h room v
  step-IsValid (other_stops r) v = record { order = v.order; pending = v.pending; room = v.room }

  reach-IsValid : {r s : Reactor W} → Reach b r s → IsValid r → IsValid s
  reach-IsValid here v = v
  reach-IsValid (then_step r st) v = step-IsValid st (reach-IsValid r v)

  make_reactor-IsValid : (world : W) → IsValid (make_reactor world)
  make_reactor-IsValid world = record { order = refl; pending = refl; room = omega arith }

  -- The reactor when the loop calls `poll`.
  abbrev pub at_poll : Reactor W → Reactor W
  at_poll r = advance_timers b (run_scratch b (process_external_queue r))

  at_poll-timeout :
      (r : Reactor W) → IsValid r → 0 < length (waiting (at_poll r)) → timeout (at_poll r) ≡ 0
  unfolding timeout process_external_queue
  at_poll-timeout r v some =
      let t = take_external-Taken r.external_queue r v.pending v.room in
      let k = before_poll-Adds b (take_external r.external_queue r) in
      ground (
        arith,
        some,
        length-append (at_poll r).run_queue (at_poll r).external_queue,
        ap length (k.same_external ∙ t.external),
        k.same_pending ∙ t.pending,
      )

  -- In every state that a new reactor reaches, whatever its coroutines, timers and backend do and the
  -- other threads schedule between its rounds: the handles that the loop has come to, and after them
  -- those that wait, are the ones that were scheduled, in that order; a `poll` does not block while
  -- one waits; and a round comes to all that wait at its start, and what waits at its end was
  -- scheduled during it.
  pub Reach-InOrder :
      (world : W) (r : Reactor W)
      → Reach b (make_reactor world) r
      → (r.visited ++ waiting r ≡ r.asked)
        × (0 < length (waiting (at_poll r)) → timeout (at_poll r) ≡ 0)
        × ((round b r).visited ≡ r.visited ++ waiting r)
        × ((round b r).asked ≡ r.asked ++ waiting (round b r))
  Reach-InOrder world r k =
      let v = reach-IsValid k (make_reactor-IsValid world) in
      let round_of = round-Rounds r v in
      (
        v.order,
        at_poll-timeout r v,
        round_of.visits,
        round_of.asks
            ∙ ap (λ (l : List ℕ). r.asked ++ l)
                (sym (append-nil (round b r).run_queue)
                  ∙ ap (λ (l : List ℕ). (round b r).run_queue ++ l) (sym round_of.external)),
      )
