-- ===== src/Concurrency/Mpmc.antt =====
-- The bounded queue of include/jellybean/concurrency/mpmc_queue.hpp, one operation at a time: each runs
-- its rounds, and is told of each CAS whether it fails for no reason, as a weak one may. The positions
-- stay below 2^63, where the differences of the source do not overflow, and are natural numbers.
pub mod Refine
pub mod Loops
use jellybean.Base.{
  ℕ, ◌+◌, ◌-◌, Bool, true, false, ◌&&◌, Option, none, some, List, [], ◌∷◌, ltb, ◌==◌, if◌then◌else◌,
}
use jellybean.Concurrency.Spsc.{put_slot, slot_of}

pub record MpmcQueue {ℓ} (T : Type ℓ) : Type ℓ where
  pub sequence : ℕ → ℕ
  pub slots : ℕ → Option T
  pub enqueue_pos : ℕ
  pub dequeue_pos : ℕ

-- How a round of a loop ends.
pub data Round {ℓ} (A : Type ℓ) : Type ℓ where
  returns : A → Round A
  retries : ℕ → Round A

abbrev pub put_sequence : (ℕ → ℕ) → ℕ → ℕ → ℕ → ℕ
put_sequence sequence i v j = if i == j then v else sequence j

module _ {ℓ} {T : Type ℓ} where
  -- The constructor: the sequence of each slot is its index.
  abbrev pub make_mpmc : MpmcQueue T
  make_mpmc = record { sequence = λ i. i; slots = λ i. none; enqueue_pos = 0; dequeue_pos = 0 }

  module _ (capacity : ℕ) where
    abbrev pub pushed : MpmcQueue T → ℕ → T → MpmcQueue T
    pushed q pos item = record q {
      sequence = put_sequence q.sequence (slot_of capacity pos) (pos + 1);
      slots = put_slot q.slots (slot_of capacity pos) (some item);
      enqueue_pos = pos + 1;
    }

    unfoldable pub push_round : Bool → ℕ → MpmcQueue T → T → Round (Bool × MpmcQueue T)
    push_round swaps pos q item =
        if q.sequence (slot_of capacity pos) == pos
        then (if swaps && (q.enqueue_pos == pos)
            then returns (true, pushed q pos item)
            else retries q.enqueue_pos)
        else if ltb (q.sequence (slot_of capacity pos)) pos
        then returns (false, q)
        else retries q.enqueue_pos

    abbrev pub popped : MpmcQueue T → ℕ → MpmcQueue T
    popped q pos = record q {
      sequence = put_sequence q.sequence (slot_of capacity pos) (pos + (capacity - 1) + 1);
      slots = put_slot q.slots (slot_of capacity pos) none;
      dequeue_pos = pos + 1;
    }

    unfoldable pub pop_round : Bool → ℕ → MpmcQueue T → Round (Option T × MpmcQueue T)
    pop_round swaps pos q =
        if q.sequence (slot_of capacity pos) == pos + 1
        then (if swaps && (q.dequeue_pos == pos)
            then returns (q.slots (slot_of capacity pos), popped q pos)
            else retries q.dequeue_pos)
        else if ltb (q.sequence (slot_of capacity pos)) (pos + 1)
        then returns (none, q)
        else retries q.dequeue_pos

    -- The loops, with what the CAS of each round does; `none` is a loop that goes on.
    unfoldable pub push_rounds : List Bool → ℕ → MpmcQueue T → T → Option (Bool × MpmcQueue T)
    unfolding push_round
    push_rounds [] pos q item = none
    push_rounds (swaps ∷ more) pos q item = elim (push_round swaps pos q item) [
      | returns r ↦ some r
      | retries pos' ↦ push_rounds more pos' q item
    ]

    unfoldable pub emplace_item : List Bool → MpmcQueue T → T → Option (Bool × MpmcQueue T)
    unfolding push_rounds
    emplace_item swaps q item = push_rounds swaps q.enqueue_pos q item

    unfoldable pub pop_rounds : List Bool → ℕ → MpmcQueue T → Option (Option T × MpmcQueue T)
    unfolding pop_round
    pop_rounds [] pos q = none
    pop_rounds (swaps ∷ more) pos q = elim (pop_round swaps pos q) [
      | returns r ↦ some r
      | retries pos' ↦ pop_rounds more pos' q
    ]

    unfoldable pub pop_item : List Bool → MpmcQueue T → Option (Option T × MpmcQueue T)
    unfolding pop_rounds
    pop_item swaps q = pop_rounds swaps q.dequeue_pos q
