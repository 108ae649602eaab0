-- ===== src/Memory/Arena/Allocate.antt =====
-- `allocate` and its slow path: what they return, from any valid arena.
use jellybean.Base.{ℕ, ◌+◌, ◌-◌, ◌%◌, ◌^◌, ◌≤◌, ◌<◌, ◌≡◌, arith, max, dec_lt}
use jellybean.Base.{some}
use jellybean.Base.Words.{add64, sub64}
use jellybean.Base.Bits.{IsPowerOfTwo}
use jellybean.Memory.Arena.{Arena, Chain, align_pointer, allocate, allocate_slow}
use jellybean.Memory.Arena.{allocate_block, append_block, record_used}
use jellybean.Memory.Arena.Placement.{IsValid, IsFresh}
use jellybean.Memory.Arena.Gives.{
  Gives, arena, fast-Gives, first_Gives, grown-Gives, align_pointer-IsLeast,
}

-- The slow path from either kind of chain; the mark is written as the code computes it.
slow_block :
    (blocks : Chain) (current end block_size total total' size alignment d s p : ℕ)
    → (d ≤ p) × (p + size ≤ d + s)
    → p % alignment ≡ 0
    → current < 2 ^ 64
    → IsValid (arena current end blocks block_size total)
    → IsFresh (arena current end blocks block_size total) d s
    → Gives (arena current end blocks block_size total) size alignment p (
        arena
          (p + size)
          (d + s)
          (append_block (record_used blocks current) (record { data_at = d; size = s; used = 0 }))
          block_size
          total')
unfolding append_block record_used
slow_block Chain.empty current end block_size total total' size alignment d s p fits m small v f =
    first_Gives current end block_size total total' size alignment d s p fits m v f
slow_block (Chain.chain before head after) current end block_size total total' size alignment d s p
      fits m small v f =
    rw mark (
      grown-Gives current end block_size total total' size alignment d s p fits m before after head
        v f)
  where
    mark : sub64 current head.data_at ≡ current - head.data_at
    mark = omega (arith, v.bumps)

-- The fast path: only an arena with a head has room for a byte.
fast_block :
    (blocks : Chain) (current end block_size total size alignment p : ℕ)
    → 0 < size
    → current ≤ p
    → p + size ≤ end
    → p % alignment ≡ 0
    → IsValid (arena current end blocks block_size total)
    → Gives
        (arena current end blocks block_size total)
        size
        alignment
        p
        (arena (p + size) end blocks block_size total)
fast_block Chain.empty current end block_size total size alignment p pos above fits m v =
    absurd (omega (arith, v.bumps))
fast_block (Chain.chain before head after) current end block_size total size alignment p pos above
      fits m v =
    fast-Gives before after head current end block_size total size alignment p v above fits m

module _ (a : Arena) (size alignment d : ℕ) (ok : IsPowerOfTwo alignment) (pos : 0 < size)
    (room : a.current + alignment + size < 2 ^ 64)
    (f : IsFresh a d (max a.block_size (size + alignment))) where
  abbrev s : ℕ
  s = max a.block_size (size + alignment)

  abbrev p : ℕ
  p = align_pointer d alignment

  p_lem : (d ≤ p) × (p < d + alignment) × (p % alignment ≡ 0)
  p_lem = align_pointer-IsLeast d alignment ok (omega (arith, f.inside))

  slow : Arena
  slow =
      arena (p + size) (d + s)
        (append_block (record_used a.blocks a.current) (record { data_at = d; size = s; used = 0 }))
        a.block_size (add64 a.total_allocated s)

  allocate_slow-eq : allocate_slow a size alignment (some d) ≡ some (p, slow)
  unfolding allocate_slow allocate_block slow
  allocate_slow-eq = ground (arith, p_lem, f.inside)

  abbrev q : ℕ
  q = align_pointer a.current alignment

  q_lem : (a.current ≤ q) × (q < a.current + alignment) × (q % alignment ≡ 0)
  q_lem = align_pointer-IsLeast a.current alignment ok (omega arith)

  allocate-fast :
      q + size ≤ a.end
      → allocate a size alignment (some d) ≡ some (q, record a { current = q + size })
  unfolding allocate
  allocate-fast h = ground (arith, q_lem, ok)

  allocate-slow : a.end < q + size → allocate a size alignment (some d) ≡ some (p, slow)
  unfolding allocate
  allocate-slow h = ground (arith, q_lem, ok, allocate_slow-eq)

  given :
      IsValid a
      → (p : ℕ) × (a' : Arena) × (allocate a size alignment (some d) ≡ some (p, a'))
        × Gives a size alignment p a'
  unfolding slow
  given v = elim (dec_lt a.end (q + size)) [
    | yes full ↦ (
      p,
      slow,
      allocate-slow full,
      slow_block a.blocks a.current a.end a.block_size a.total_allocated (add64 a.total_allocated s)
          size alignment d s p (omega (arith, p_lem)) p_lem.2 (omega arith) v f,
    )
    | no fits ↦ (
      q,
      record a { current = q + size },
      allocate-fast (omega arith),
      fast_block a.blocks a.current a.end a.block_size a.total_allocated size alignment q pos
          q_lem.0 (omega arith) q_lem.2 v,
    )
  ]

-- From a valid arena, for an alignment that passes the code's own test, a size that is not 0, sums
-- that stay below 2^64, and a malloc that answers, if asked, with fresh storage: `allocate` does not
-- abort, it returns bytes that are aligned and that were not handed out before, it leaves the arena
-- valid, and neither those bytes nor the ones handed out before are given again.
pub allocate-Gives :
    (a : Arena) (size alignment data_at : ℕ)
    → IsValid a
    → IsPowerOfTwo alignment
    → 0 < size
    → a.current + alignment + size < 2 ^ 64
    → IsFresh a data_at (max a.block_size (size + alignment))
    → (p : ℕ) × (a' : Arena) × (allocate a size alignment (some data_at) ≡ some (p, a'))
      × Gives a size alignment p a'
allocate-Gives a size alignment d v ok pos room f = given a size alignment d ok pos room f v
