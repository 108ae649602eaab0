-- ===== src/Reactor/TimerWheel.antt =====
-- The timer wheel of include/jellybean/reactor/timer_wheel.hpp and src/reactor/timer_wheel.cpp.
-- A callback is a number: `advance` returns the timers whose callbacks it calls, in order. The
-- callbacks of the model do not touch the wheel.
pub mod Due
pub mod Advance
pub mod Fires
use jellybean.Base.{ℕ, zero, suc, ◌+◌, ◌-◌, ◌/◌, List, [], ◌∷◌, ◌++◌}
use jellybean.Base.{bit_and, ltb, leb, ◌==◌, if◌then◌else◌}
use jellybean.Base.Words.{add64}

abbrev pub slot_count : ℕ
slot_count = 512

abbrev pub tick_ns : ℕ
tick_ns = 1000000

pub record TimerEntry : Type 0 where
  pub expires_tick : ℕ
  pub callback : ℕ

-- The array of buckets as a function of the index.
pub record TimerWheel : Type 0 where
  pub slots : ℕ → List TimerEntry
  pub current_tick : ℕ

-- The constructor.
abbrev pub make : TimerWheel
make = record { slots = λ _. []; current_tick = 0 }

unfoldable pub initialize : TimerWheel → ℕ → TimerWheel
initialize w now_ns = record w { current_tick = now_ns / tick_ns }

abbrev pub put_slot : (ℕ → List TimerEntry) → ℕ → List TimerEntry → ℕ → List TimerEntry
put_slot slots i entries j = if i == j then entries else slots j

unfoldable pub add_timer : TimerWheel → ℕ → ℕ → TimerWheel
add_timer w delay_ns cb =
    let whole = delay_ns / tick_ns in
    let ticks = if whole == 0 then 1 else whole in
    let expires_tick = add64 w.current_tick ticks in
    let slot = bit_and expires_tick (slot_count - 1) in
    record w {
      slots =
          put_slot w.slots slot
            (w.slots slot ++ (record { expires_tick = expires_tick; callback = cb } ∷ []));
    }

-- The two parts of `std::stable_partition`: the entries that stay, and those that fire.
unfoldable pub pending : ℕ → List TimerEntry → List TimerEntry
pending tick [] = []
pending tick (e ∷ es) = if ltb tick e.expires_tick then e ∷ pending tick es else pending tick es

unfoldable pub expired : ℕ → List TimerEntry → List TimerEntry
expired tick [] = []
expired tick (e ∷ es) = if ltb tick e.expires_tick then expired tick es else e ∷ expired tick es

-- One round of the loop of `advance`: the wheel, and the timers that fire.
unfoldable pub next_tick : TimerWheel → TimerWheel × List TimerEntry
unfolding pending expired
next_tick w =
    let tick = add64 w.current_tick 1 in
    let slot = bit_and tick (slot_count - 1) in
    let entries = w.slots slot in
    elim entries [
      | [] ↦ (record w { current_tick = tick }, [])
      | e ∷ es ↦ (
        record { slots = put_slot w.slots slot (pending tick (e ∷ es)); current_tick = tick },
        expired tick (e ∷ es),
      )
    ]

-- `n` rounds of the loop.
unfoldable pub run_ticks : ℕ → TimerWheel → TimerWheel × List TimerEntry
unfolding next_tick
run_ticks zero w = (w, [])
run_ticks (suc n) w =
    let (w', fired) = next_tick w in let (last, later) = run_ticks n w' in (last, fired ++ later)

-- The loop runs while the current tick is below the target: as many rounds as lie between.
unfoldable pub advance : TimerWheel → ℕ → TimerWheel × List TimerEntry
unfolding run_ticks
advance w now_ns = run_ticks (now_ns / tick_ns - w.current_tick) w
