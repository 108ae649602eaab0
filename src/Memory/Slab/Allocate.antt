-- ===== src/Memory/Slab/Allocate.antt =====
-- `allocate` and `deallocate`.
use mathlib.Core.Path.{subst}
use jellybean.Base.{
  ℕ, zero, suc, ◌+◌, ◌*◌, ◌<◌, ◌≡◌, ◌≢◌, refl, ap, ◌∙◌, arith, Option, none, some, List, [], ◌∷◌,
  length, ltb, if◌then◌else◌,
}
use jellybean.Memory.Slab.{
  Slot, storage, next_free, Slab, put, no_slots, chain_slot, chain_slots, allocate_chunk, take_slot,
  allocate_object, deallocate,
}
use jellybean.Memory.Slab.Laws.{times, live, IsValid, Linked-put, chain_slots-IsValid}

module _ {T : Type 0} where
  -- Every slot of the chunks is on the free list, once, or holds an object.
  abbrev pub IsSlab : ℕ → Slab T → List ℕ → Type 0
  IsSlab chunk_objects s free = IsValid (s.chunks * chunk_objects) s free

  -- Objects stay where they are.
  abbrev pub Keeps : Slab T → Slab T → Type 0
  Keeps s s' = (q : ℕ) (v : T) → s.slots q ≡ storage v → s'.slots q ≡ storage v

  pub record Allocates (chunk_objects : ℕ) (s : Slab T) (item : T) (r : ℕ × Slab T) : Type 0 where
    pub fresh : (v : T) → s.slots r.0 ≢ storage v
    pub holds : r.1.slots r.0 ≡ storage item
    pub keeps : Keeps s r.1
    pub valid : (free : List ℕ) × IsSlab chunk_objects r.1 free

  chain_slots-chunks : (n p : ℕ) (s : Slab T) → (chain_slots n p s).chunks ≡ s.chunks
  unfolding chain_slots
  chain_slots-chunks zero p s = refl
  chain_slots-chunks (suc n) p s = chain_slots-chunks n (p + 1) (chain_slot s p)

  storage-ne : (slot : Slot T) (next : Option ℕ) (v : T) → slot ≡ next_free next → slot ≢ storage v
  storage-ne slot next v e e' = cc

  stored-below :
      (bound : ℕ) (s : Slab T) (free : List ℕ) (q : ℕ) (v : T)
      → IsValid bound s free
      → s.slots q ≡ storage v
      → q < bound
  stored-below bound s free q v ok h = ground (arith, ok.once q, ap live h)

  allocate_chunk-IsSlab :
      (chunk_objects : ℕ) (s : Slab T) (free : List ℕ)
      → IsSlab chunk_objects s free
      → (free' : List ℕ) × IsSlab chunk_objects (allocate_chunk chunk_objects s) free'
        × Keeps s (allocate_chunk chunk_objects s)
        × (length free' ≡ length free + chunk_objects)
  unfolding allocate_chunk
  allocate_chunk-IsSlab c s free v =
      let (free', v', same, n) = chain_slots-IsValid c (s.chunks * c) s free v in
      (
        free',
        record {
          chain = v'.chain;
          once =
              subst
                (λ (b : ℕ).
                  (p : ℕ)
                  → times p free' + live ((chain_slots c (s.chunks * c) s).slots p)
                    ≡ (if ltb p b then 1 else 0))
                (let e : s.chunks * c + c ≡ (s.chunks + 1) * c = grind arith in e) v'.once;
        },
        λ q x h. same q (stored-below (s.chunks * c) s free q x v h) ∙ h,
        n,
      )

  take_slot-some :
      (s : Slab T) (item : T) (p : ℕ) (next : Option ℕ)
      → s.free_list_head ≡ some p
      → s.slots p ≡ next_free next
      → take_slot s item
        ≡ some (p, record s { slots = put s.slots p (storage item); free_list_head = next })
  unfolding take_slot
  take_slot-some s item p next h h' = rw (h, h') refl

  take_slot-Allocates :
      (c : ℕ) (s : Slab T) (item : T) (p : ℕ) (free : List ℕ)
      → IsSlab c s (p ∷ free)
      → (r : ℕ × Slab T) × (take_slot s item ≡ some r) × Allocates c s item r
  take_slot-Allocates c s item p free v =
      let (next, at_head, linked, rest) = v.chain in
      (
        (p, record s { slots = put s.slots p (storage item); free_list_head = next }),
        take_slot-some s item p next at_head linked,
        record {
          fresh = λ x. storage-ne (s.slots p) next x linked;
          holds = ground arith;
          keeps = λ q x h. ground (arith, h, linked);
          valid = (
            free,
            record {
              chain = Linked-put s.slots p (storage item) next free (ground (arith, v.once p)) rest;
              once = λ q. ground (arith, v.once q, v.once p, ap live linked);
            },
          );
        },
      )

  first-Allocates :
      (c : ℕ) (s : Slab T) (item : T) (free : List ℕ)
      → IsSlab c s free
      → 0 < length free
      → (r : ℕ × Slab T) × (take_slot s item ≡ some r) × Allocates c s item r
  first-Allocates c s item [] v pos = absurd (omega (arith, pos))
  first-Allocates c s item (p ∷ free) v pos = take_slot-Allocates c s item p free v

  allocate-some :
      (c : ℕ) (s : Slab T) (item : T) (p : ℕ)
      → s.free_list_head ≡ some p
      → allocate_object c s item ≡ take_slot s item
  unfolding allocate_object
  allocate-some c s item p h = ground arith

  allocate-none :
      (c : ℕ) (s : Slab T) (item : T)
      → s.free_list_head ≡ none
      → allocate_object c s item ≡ take_slot (allocate_chunk c s) item
  unfolding allocate_object
  allocate-none c s item h = ground arith

  -- `allocate` gives a slot in which no object lived, with the new object in it; all objects stay
  -- where they are, and every slot is on the free list, once, or holds an object.
  pub allocate-Allocates :
      (c : ℕ) (s : Slab T) (item : T) (free : List ℕ)
      → 0 < c
      → IsSlab c s free
      → (r : ℕ × Slab T) × (allocate_object c s item ≡ some r) × Allocates c s item r
  allocate-Allocates c s item [] pos v =
      let (free', v', kept, n) = allocate_chunk-IsSlab c s [] v in
      let (r, gives, a) = first-Allocates c (allocate_chunk c s) item free' v' (omega (arith, n)) in
      (
        r,
        allocate-none c s item v.chain ∙ gives,
        record {
          fresh = λ x h. a.fresh x (kept r.0 x h);
          holds = a.holds;
          keeps = λ q x h. a.keeps q x (kept q x h);
          valid = a.valid;
        },
      )
  allocate-Allocates c s item (p ∷ free) pos v =
      let (r, gives, a) = take_slot-Allocates c s item p free v in
      (r, allocate-some c s item p v.chain.1 ∙ gives, a)

  chain_slot-reused :
      (c : ℕ) (s : Slab T) (p : ℕ) (item : T)
      → (s' : Slab T) × (allocate_object c (chain_slot s p) item ≡ some (p, s'))
  chain_slot-reused c s p item = (
    record s {
      slots = put (put s.slots p (next_free s.free_list_head)) p (storage item);
      free_list_head = s.free_list_head;
    },
    allocate-some c (chain_slot s p) item p refl
        ∙ take_slot-some (chain_slot s p) item p s.free_list_head refl (ground arith),
  )

  -- `deallocate` of an object puts its slot at the head of the free list, leaves all other slots
  -- alone, and the next `allocate` gives this slot.
  deallocate-IsSlab :
      (c : ℕ) (s : Slab T) (p : ℕ) (v next : T) (free : List ℕ)
      → IsSlab c s free
      → s.slots p ≡ storage v
      → IsSlab c (deallocate s (some p)) (p ∷ free)
        × ((q : ℕ) → q ≢ p → (deallocate s (some p)).slots q ≡ s.slots q)
        × ((s' : Slab T) × (allocate_object c (deallocate s (some p)) next ≡ some (p, s')))
  unfolding deallocate
  deallocate-IsSlab c s p v next free ok h = (
    record {
      chain = (
        s.free_list_head,
        refl,
        ground arith,
        Linked-put s.slots p (next_free s.free_list_head) s.free_list_head free
            (ground (arith, ok.once p, ap live h)) ok.chain,
      );
      once = λ q. ground (arith, ok.once q, ok.once p, ap live h);
    },
    λ q ne. ground (arith, ne),
    chain_slot-reused c s p next,
  )

  pub no_slots-IsSlab : (c : ℕ) → IsSlab c (no_slots {T = T}) []
  no_slots-IsSlab c = record { chain = refl; once = λ p. ground arith }
