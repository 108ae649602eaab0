-- ===== src/Memory/Slab/Laws.antt =====
-- Which slots are free: each slot of the chunks is on the free list, once, or holds an object.
use mathlib.Core.Path.{subst}
use jellybean.Base.{
  ℕ, zero, suc, ◌+◌, ◌<◌, ◌≡◌, refl, ◌∙◌, arith, Option, none, some, List, [], ◌∷◌, length, ltb,
  ◌==◌, if◌then◌else◌,
}
use jellybean.Memory.Slab.{Slot, storage, next_free, Slab, put, chain_slot, chain_slots}

abbrev pub times : ℕ → List ℕ → ℕ
times p [] = 0
times p (q ∷ qs) = (if q == p then 1 else 0) + times p qs

abbrev pub live {ℓ} : {T : Type ℓ} → Slot T → ℕ
live (storage v) = 1
live (next_free next) = 0

module _ {T : Type 0} where
  -- The free list from a slot on.
  abbrev pub Linked : (ℕ → Slot T) → Option ℕ → List ℕ → Type 0
  Linked slots head [] = head ≡ none
  Linked slots head (p ∷ ps) =
      (next : Option ℕ) × (head ≡ some p) × (slots p ≡ next_free next) × Linked slots next ps

  pub record IsValid (bound : ℕ) (s : Slab T) (free : List ℕ) : Type 0 where
    pub chain : Linked s.slots s.free_list_head free
    pub once : (p : ℕ) → times p free + live (s.slots p) ≡ (if ltb p bound then 1 else 0)

  -- A write to a slot that is not on the list.
  pub Linked-put :
      (slots : ℕ → Slot T) (p : ℕ) (v : Slot T) (head : Option ℕ) (free : List ℕ)
      → times p free ≡ 0
      → Linked slots head free
      → Linked (put slots p v) head free
  Linked-put slots p v head [] off c = c
  Linked-put slots p v head (q ∷ qs) off (next, at_head, linked, rest) = (
    next,
    at_head,
    ground (arith, off, linked),
    Linked-put slots p v next qs (omega (arith, off)) rest,
  )

  -- A slot that is neither free nor in use comes to the list.
  chain_slot-IsValid :
      (bound : ℕ) (s : Slab T) (free : List ℕ)
      → IsValid bound s free
      → IsValid (bound + 1) (chain_slot s bound) (bound ∷ free)
  chain_slot-IsValid bound s free v = record {
    chain = (
      s.free_list_head,
      refl,
      ground arith,
      Linked-put s.slots bound (next_free s.free_list_head) s.free_list_head free
          (ground (arith, v.once bound)) v.chain,
    );
    once = λ p. ground (arith, v.once p, v.once bound);
  }

  pub chain_slots-IsValid :
      (n bound : ℕ) (s : Slab T) (free : List ℕ)
      → IsValid bound s free
      → (free' : List ℕ) × IsValid (bound + n) (chain_slots n bound s) free'
        × ((p : ℕ) → p < bound → (chain_slots n bound s).slots p ≡ s.slots p)
        × (length free' ≡ length free + n)
  unfolding chain_slots
  chain_slots-IsValid zero bound s free v = (
    free,
    subst (λ b. IsValid b s free) (let e : bound ≡ bound + 0 = omega arith in e) v,
    λ p lt. refl,
    omega arith,
  )
  chain_slots-IsValid (suc n) bound s free v =
      let (free', v', same, more) =
        chain_slots-IsValid n (bound + 1) (chain_slot s bound) (bound ∷ free)
          (chain_slot-IsValid bound s free v) in
      (
        free',
        subst (λ b. IsValid b (chain_slots n (bound + 1) (chain_slot s bound)) free')
            (let e : bound + 1 + n ≡ bound + suc n = omega arith in e) v',
        λ p lt. same p (omega arith) ∙ ground arith,
        omega (arith, more),
      )
