-- ===== src/Checks/Memory.antt =====
-- The arena of src/memory/arena.cpp at small block sizes.
use jellybean.Base.{ℕ, ◌+◌, ◌≡◌, refl, arith, [], ◌∷◌, some, max, inl, inr}
use jellybean.Base.Bits.{IsPowerOfTwo}
use jellybean.Memory.Arena.{
  Arena, Chain, make, allocate, allocate_slow, reset, destroy, bytes_allocated,
}
use jellybean.Memory.Arena.Placement.{IsValid, InUse, IsFresh}
use jellybean.Memory.Arena.Gives.{Gives}
use jellybean.Memory.Arena.Allocate.{allocate-Gives}
use jellybean.Memory.Arena.Reset.{reset_lem, destroy-reset-slow}

-- Two blocks of 64 bytes, the second the head.
abbrev two_blocks : Arena
two_blocks = record {
  current = 2020;
  end = 2064;
  blocks =
      Chain.chain (record { data_at = 1000; size = 64; used = 60 } ∷ [])
        (record { data_at = 2000; size = 64; used = 0 }) [];
  block_size = 64;
  total_allocated = 128;
}

two_blocks-IsValid : IsValid two_blocks
two_blocks-IsValid = record {
  placed = (
    record { nonnull = omega arith; inside = omega arith; marked = omega arith },
    (inl (omega arith), tt),
    (record { nonnull = omega arith; inside = omega arith; marked = omega arith }, tt, tt),
  );
  bumps = (omega arith, omega arith, refl, tt);
}

sixteen : IsPowerOfTwo 16
sixteen = record { nonzero = omega arith; one_bit = refl; small = omega arith }

-- The first request of a new arena takes a block.
first_request :
    allocate (make 64) 10 16 (some 1008)
    ≡ some (
      1008,
      record {
        current = 1018;
        end = 1072;
        blocks = Chain.chain [] (record { data_at = 1008; size = 64; used = 0 }) [];
        block_size = 64;
        total_allocated = 64;
      },
    )
unfolding allocate allocate_slow make
first_request = refl

-- A request for nothing from a new arena is answered with the null pointer.
empty_request : allocate (make 64) 0 16 (some 1008) ≡ some (0, make 64)
unfolding allocate make
empty_request = refl

fresh : IsFresh two_blocks 4000 (max 64 (40 + 16))
fresh = record {
  nonnull = omega arith;
  inside = omega arith;
  apart = (inr (omega arith), (inr (omega arith), tt));
}

allocate-Gives_example :
    (p : ℕ) × (a' : Arena) × (allocate two_blocks 40 16 (some 4000) ≡ some (p, a'))
    × Gives two_blocks 40 16 p a'
allocate-Gives_example =
    allocate-Gives two_blocks 40 16 4000 two_blocks-IsValid sixteen (omega arith) (omega arith)
      fresh

reset_lem_example :
    IsValid (reset two_blocks)
    × (¬ InUse (reset two_blocks) 1003)
    × (bytes_allocated (reset two_blocks) ≡ 0)
reset_lem_example = reset_lem two_blocks 1003 two_blocks-IsValid

abbrev overflowed : Arena
overflowed = record {
  current = 4010;
  end = 4064;
  blocks =
      Chain.chain (record { data_at = 1000; size = 64; used = 0 } ∷ [])
        (record { data_at = 4000; size = 64; used = 0 }) [];
  block_size = 64;
  total_allocated = 192;
}

slow_after_reset : allocate_slow (reset two_blocks) 10 16 (some 4000) ≡ some (4000, overflowed)
unfolding allocate_slow reset
slow_after_reset = refl

-- The block at 2000 is not given back.
destroy-reset-slow_example : destroy overflowed ≡ 1000 ∷ 4000 ∷ []
destroy-reset-slow_example =
    destroy-reset-slow two_blocks overflowed (record { data_at = 1000; size = 64; used = 60 })
      (record { data_at = 2000; size = 64; used = 0 } ∷ []) 10 16 4000 4000 refl slow_after_reset
