-- ===== src/Reactor/TimerWheel/Advance.antt =====
-- `add_timer` and `advance`: every timer fires at its tick, none before, and none twice.
use jellybean.Base.{
  ℕ, zero, suc, ◌+◌, ◌-◌, ◌%◌, ◌/◌, ◌^◌, ◌≤◌, ◌<◌, ◌≡◌, refl, sym, ap, ap₂, ◌∙◌, arith,
}
use jellybean.Base.{List, [], ◌++◌, ℕ_discrete}
use jellybean.Reactor.TimerWheel.{TimerEntry, TimerWheel, pending, next_tick}
use jellybean.Reactor.TimerWheel.{run_ticks, advance, tick_ns}
use jellybean.Reactor.TimerWheel.Due.{
  IsValid, slot_lem, due_at, expired-eq-due_at, Waiting-pending, Waiting-pending_self,
  pending-other, pending-pending, due_at-pending,
}

-- The timers that are due in the `n` ticks after `now`, tick by tick.
unfoldable pub due_between : (ℕ → List TimerEntry) → ℕ → ℕ → List TimerEntry
due_between slots now zero = []
due_between slots now (suc n) =
    due_at (now + 1) (slots ((now + 1) % 512)) ++ due_between slots (now + 1) n

-- What `n` ticks do to a wheel: the buckets lose what has expired by then, and what fires is what
-- is due, tick by tick.
pub record Advanced (w : TimerWheel) (n : ℕ) (result : TimerWheel × List TimerEntry) : Type 0 where
  pub tick : result.0.current_tick ≡ w.current_tick + n
  pub left : (slot : ℕ) → result.0.slots slot ≡ pending (w.current_tick + n) (w.slots slot)
  pub fired : result.1 ≡ due_between w.slots w.current_tick n

next_tick-eq :
    (w : TimerWheel)
    → IsValid w
    → w.current_tick + 1 < 2 ^ 64
    → (next_tick w).0.current_tick ≡ w.current_tick + 1
unfolding next_tick
next_tick-eq w v room = ground arith

next_tick-left :
    (w : TimerWheel) (slot : ℕ)
    → IsValid w
    → w.current_tick + 1 < 2 ^ 64
    → (next_tick w).0.slots slot ≡ pending (w.current_tick + 1) (w.slots slot)
unfolding next_tick
next_tick-left w slot v room = elim (ℕ_discrete ((w.current_tick + 1) % 512) slot) [
  | yes here ↦ ground (arith, slot_lem (w.current_tick + 1))
  | no other ↦ ground (
    arith,
    slot_lem (w.current_tick + 1),
    pending-other slot w.current_tick (w.slots slot) (v slot) other,
  )
]

next_tick-fired :
    (w : TimerWheel)
    → IsValid w
    → w.current_tick + 1 < 2 ^ 64
    → (next_tick w).1 ≡ due_at (w.current_tick + 1) (w.slots ((w.current_tick + 1) % 512))
unfolding next_tick
next_tick-fired w v room = ground (
  arith,
  slot_lem (w.current_tick + 1),
  expired-eq-due_at ((w.current_tick + 1) % 512) w.current_tick
      (w.slots ((w.current_tick + 1) % 512)) (v ((w.current_tick + 1) % 512)),
)

next_tick-IsValid :
    (w : TimerWheel) → IsValid w → w.current_tick + 1 < 2 ^ 64 → IsValid (next_tick w).0
next_tick-IsValid w v room slot =
    rw (next_tick-left w slot v room, next_tick-eq w v room)
      (Waiting-pending slot w.current_tick (w.slots slot) (v slot))

due_between-pending :
    (slots slots' : ℕ → List TimerEntry) (s now n : ℕ)
    → s ≤ now
    → ((slot : ℕ) → slots' slot ≡ pending s (slots slot))
    → due_between slots' now n ≡ due_between slots now n
unfolding due_between
due_between-pending slots slots' s now zero le h = refl
due_between-pending slots slots' s now (suc n) le h =
    ap₂ ◌++◌
      (ap (due_at (now + 1)) (h ((now + 1) % 512))
        ∙ due_at-pending s (now + 1) (slots ((now + 1) % 512)) (omega arith))
      (due_between-pending slots slots' s (now + 1) n (omega arith) h)

run_ticks-Advanced :
    (n : ℕ) (w : TimerWheel)
    → IsValid w
    → w.current_tick + n < 2 ^ 64
    → Advanced w n (run_ticks n w) × IsValid (run_ticks n w).0
unfolding run_ticks due_between
run_ticks-Advanced zero w v room = (
  record {
    tick = omega arith;
    left = λ slot. sym (
        ap (λ t. pending t (w.slots slot))
          (let e : w.current_tick + 0 ≡ w.current_tick = omega arith in e)
        ∙ Waiting-pending_self slot w.current_tick (w.slots slot) (v slot));
    fired = refl;
  },
  v,
)
run_ticks-Advanced (suc n) w v room =
    let room1 : w.current_tick + 1 < 2 ^ 64 = omega arith in
    let e = next_tick-eq w v room1 in
    let (ih, valid) =
      run_ticks-Advanced n (next_tick w).0 (next_tick-IsValid w v room1) (omega (arith, e)) in
    (
      record {
        tick = omega (arith, e, ih.tick);
        left = λ slot.
            ih.left slot
            ∙ ap₂ pending
                (let t : (next_tick w).0.current_tick + n ≡ w.current_tick + suc n =
                    omega (arith, e) in
                  t)
                (next_tick-left w slot v room1)
            ∙ pending-pending (w.current_tick + 1) (w.current_tick + suc n) (w.slots slot)
                (omega arith);
        fired = ap₂ ◌++◌ (next_tick-fired w v room1) (
            ih.fired
            ∙ ap (λ t. due_between (next_tick w).0.slots t n) e
            ∙ due_between-pending w.slots (next_tick w).0.slots (w.current_tick + 1)
                (w.current_tick + 1) n (omega arith) (λ slot. next_tick-left w slot v room1));
      },
      valid,
    )

-- From a valid wheel, at a time not before its own: `advance` brings the wheel to the tick of that
-- time, fires the timers due in between, tick by tick and in the order of their bucket, leaves in
-- each bucket the timers that expire later, in their order, and keeps the wheel valid.
pub advance-Advanced :
    (w : TimerWheel) (now_ns : ℕ)
    → IsValid w
    → now_ns < 2 ^ 64
    → w.current_tick ≤ now_ns / tick_ns
    → Advanced w (now_ns / tick_ns - w.current_tick) (advance w now_ns)
      × IsValid (advance w now_ns).0
unfolding advance
advance-Advanced w now_ns v small le =
    run_ticks-Advanced (now_ns / tick_ns - w.current_tick) w v (omega arith)
