-- ===== src/Memory/Slab.antt =====
-- `SlabAllocator` of include/jellybean/memory/slab.hpp. The slot `i` of the chunk `n` has the address
-- `n * chunk_objects + i`: what `make_unique` gives is storage of its own.
pub mod Laws
pub mod Allocate
use jellybean.Base.{ℕ, zero, suc, ◌+◌, ◌*◌, ◌==◌, Bool, Option, none, some, if◌then◌else◌}

-- The union: an object, or the next free slot.
pub data Slot {ℓ} (T : Type ℓ) : Type ℓ where
  storage : T → Slot T
  next_free : Option ℕ → Slot T

pub record Slab {ℓ} (T : Type ℓ) : Type ℓ where
  pub chunks : ℕ
  pub slots : ℕ → Slot T
  pub free_list_head : Option ℕ

module _ {ℓ} {T : Type ℓ} where
  abbrev pub put : (ℕ → Slot T) → ℕ → Slot T → ℕ → Slot T
  put slots p v q = if p == q then v else slots q

  abbrev pub no_slots : Slab T
  no_slots = record { chunks = 0; slots = λ p. next_free none; free_list_head = none }

  -- The slot goes to the head of the free list.
  abbrev pub chain_slot : Slab T → ℕ → Slab T
  chain_slot s p = record s {
    slots = put s.slots p (next_free s.free_list_head);
    free_list_head = some p;
  }

  -- The loop of `allocate_chunk`, with `n` slots left from `p` on.
  unfoldable pub chain_slots : ℕ → ℕ → Slab T → Slab T
  chain_slots zero p s = s
  chain_slots (suc n) p s = chain_slots n (p + 1) (chain_slot s p)

  unfoldable pub allocate_chunk : ℕ → Slab T → Slab T
  unfolding chain_slots
  allocate_chunk chunk_objects s =
      let s' = chain_slots chunk_objects (s.chunks * chunk_objects) s in
      record s' { chunks = s.chunks + 1 }

  -- An object is built in the slot at the head. `none` is a null pointer that is followed, or a slot
  -- whose link is read while an object lives there.
  unfoldable pub take_slot : Slab T → T → Option (ℕ × Slab T)
  take_slot s item = elim s.free_list_head [
    | none ↦ none
    | some p ↦ elim (s.slots p) [
      | storage v ↦ none
      | next_free next ↦
          some (p, record s { slots = put s.slots p (storage item); free_list_head = next })
    ]
  ]

  unfoldable pub allocate_object : ℕ → Slab T → T → Option (ℕ × Slab T)
  unfolding take_slot allocate_chunk
  allocate_object chunk_objects s item = elim s.free_list_head [
    | none ↦ take_slot (allocate_chunk chunk_objects s) item
    | some p ↦ take_slot s item
  ]

  unfoldable pub deallocate : Slab T → Option ℕ → Slab T
  deallocate s none = s
  deallocate s (some p) = chain_slot s p
