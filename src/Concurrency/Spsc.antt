-- ===== src/Concurrency/Spsc.antt =====
-- The single-producer single-consumer ring of include/jellybean/concurrency/spsc_queue.hpp, one
-- operation at a time. The indices run on and wrap at 64 bits; the slots are raw storage, `none`
-- where no object lives.
pub mod Index
pub mod Refine
use jellybean.Base.{
  ℕ, ◌-◌, Bool, true, false, Option, none, some, bit_and, ltb, ◌==◌, if◌then◌else◌,
}
use jellybean.Base.Words.{add64, sub64}

pub record SpscQueue {ℓ} (T : Type ℓ) : Type ℓ where
  pub head : ℕ
  pub tail : ℕ
  pub buffer : ℕ → Option T

abbrev pub put_slot {ℓ} : {T : Type ℓ} → (ℕ → Option T) → ℕ → Option T → ℕ → Option T
put_slot buffer i v j = if i == j then v else buffer j

module _ {ℓ} {T : Type ℓ} where
  -- `SpscQueue() = default`
  abbrev pub make : SpscQueue T
  make = record { head = 0; tail = 0; buffer = λ _. none }

  unfoldable pub empty : SpscQueue T → Bool
  empty q = q.head == q.tail

  unfoldable pub size : SpscQueue T → ℕ
  size q = sub64 q.tail q.head

-- `& MASK`
abbrev pub slot_of : ℕ → ℕ → ℕ
slot_of capacity i = bit_and i (capacity - 1)

module _ {ℓ} {T : Type ℓ} (capacity : ℕ) where
  unfoldable pub emplace : SpscQueue T → T → Bool × SpscQueue T
  emplace q item =
      let next = add64 q.tail 1 in
      if ltb capacity (sub64 next q.head) then (false, q) else (
        true,
        record q { buffer = put_slot q.buffer (slot_of capacity q.tail) (some item); tail = next },
      )

  -- `try_push`, by copy and by move.
  unfoldable pub try_push : SpscQueue T → T → Bool × SpscQueue T
  unfolding emplace
  try_push q item = emplace q item

  unfoldable pub try_pop : SpscQueue T → Option T × SpscQueue T
  try_pop q = if q.head == q.tail then (none, q) else (
    q.buffer (slot_of capacity q.head),
    record q { buffer = put_slot q.buffer (slot_of capacity q.head) none; head = add64 q.head 1 },
  )
