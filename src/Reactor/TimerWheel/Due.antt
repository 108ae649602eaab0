-- ===== src/Reactor/TimerWheel/Due.antt =====
-- What the wheel keeps true of its buckets, and which timers are due at a tick.
use jellybean.Base.{ℕ, ◌+◌, ◌%◌, ◌≤◌, ◌<◌, ◌≡◌, ◌≢◌, refl, arith}
use jellybean.Base.{List, [], ◌∷◌, bit_and, ltb, ◌==◌, if◌then◌else◌, Bool-cases, inl, inr}
use jellybean.Base.Bits.{bit_and_mask}
use jellybean.Reactor.TimerWheel.{TimerEntry, TimerWheel, pending, expired}

-- Each entry of a bucket belongs there, and its tick is still to come.
abbrev pub Waiting : ℕ → ℕ → List TimerEntry → Type 0
Waiting slot now [] = Unit
Waiting slot now (e ∷ es) =
    ((e.expires_tick % 512 ≡ slot) × (now < e.expires_tick)) × Waiting slot now es

abbrev pub IsValid : TimerWheel → Type 0
IsValid w = (slot : ℕ) → Waiting slot w.current_tick (w.slots slot)

pub slot_lem : (tick : ℕ) → bit_and tick 511 ≡ tick % 512
slot_lem tick = bit_and_mask 9 tick

-- The entries of a list that expire at a tick, in their order.
unfoldable pub due_at : ℕ → List TimerEntry → List TimerEntry
due_at tick [] = []
due_at tick (e ∷ es) = if e.expires_tick == tick then e ∷ due_at tick es else due_at tick es

pub expired-eq-due_at :
    (slot now : ℕ) (es : List TimerEntry)
    → Waiting slot now es
    → expired (now + 1) es ≡ due_at (now + 1) es
unfolding expired due_at
expired-eq-due_at slot now [] h = refl
expired-eq-due_at slot now (e ∷ es) h = ground (arith, expired-eq-due_at slot now es h.1)

pub Waiting-pending :
    (slot now : ℕ) (es : List TimerEntry)
    → Waiting slot now es
    → Waiting slot (now + 1) (pending (now + 1) es)
unfolding pending
Waiting-pending slot now [] h = tt
Waiting-pending slot now (e ∷ es) h = elim (Bool-cases (ltb (now + 1) e.expires_tick)) [
  | inl later ↦ rw later ((h.0.0, ground arith), Waiting-pending slot now es h.1)
  | inr due ↦ rw due (Waiting-pending slot now es h.1)
]

-- In the buckets that a tick does not visit, nothing is due at it.
pub pending-other :
    (slot now : ℕ) (es : List TimerEntry)
    → Waiting slot now es
    → (now + 1) % 512 ≢ slot
    → pending (now + 1) es ≡ es
unfolding pending
pending-other slot now [] h ne = refl
pending-other slot now (e ∷ es) h ne = ground (arith, pending-other slot now es h.1 ne)

pub pending-pending :
    (s t : ℕ) (es : List TimerEntry) → s ≤ t → pending t (pending s es) ≡ pending t es
unfolding pending
pending-pending s t [] h = refl
pending-pending s t (e ∷ es) h = ground (arith, pending-pending s t es h)

pub Waiting-pending_self :
    (slot now : ℕ) (es : List TimerEntry) → Waiting slot now es → pending now es ≡ es
unfolding pending
Waiting-pending_self slot now [] h = refl
Waiting-pending_self slot now (e ∷ es) h = ground (arith, Waiting-pending_self slot now es h.1)

-- What is due at a later tick is not touched by the removal of what has expired.
pub due_at-pending :
    (s t : ℕ) (es : List TimerEntry) → s < t → due_at t (pending s es) ≡ due_at t es
unfolding pending due_at
due_at-pending s t [] h = refl
due_at-pending s t (e ∷ es) h = ground (arith, due_at-pending s t es h)
