-- ===== src/Checks/Slab.antt =====
-- The slab allocator of include/jellybean/memory/slab.hpp with chunks of two slots.
use jellybean.Base.{ℕ, ◌≡◌, refl, arith, Option, none, some, [], ◌∷◌}
use jellybean.Memory.Slab.{Slab, no_slots, allocate_object}
use jellybean.Memory.Slab.Allocate.{IsSlab, Allocates, allocate-Allocates, no_slots-IsSlab}

allocate-Allocates_example :
    (r : ℕ × Slab ℕ) × (allocate_object 2 no_slots 7 ≡ some r) × Allocates 2 no_slots 7 r
allocate-Allocates_example = allocate-Allocates 2 no_slots 7 [] (omega arith) (no_slots-IsSlab 2)

abbrev after : Option (ℕ × Slab ℕ) → Slab ℕ
after none = no_slots
after (some r) = r.1

abbrev one_object : Slab ℕ
unfolding allocate_object
one_object = after (allocate_object 2 no_slots 7)

one_object-IsSlab : IsSlab 2 one_object (0 ∷ [])
unfolding allocate_object
one_object-IsSlab = record { chain = (none, refl, refl, refl); once = λ p. ground arith }
