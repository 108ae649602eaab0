-- ===== src/Memory/Arena/Reset.antt =====
-- `reset`: what it takes back, and what becomes of the blocks behind the first.
use jellybean.Base.{ℕ, ◌≡◌, ◌≢◌, refl, inl, inr, arith, sym, ap}
use jellybean.Base.{List, [], ◌∷◌, ◌++◌, Option, some, none}
use jellybean.Memory.Arena.{Arena, Block, Chain, linked, clear_used, rewind, reset, destroy}
use jellybean.Memory.Arena.{bytes_allocated, sum_used, allocate_slow, allocate_block}
use mathlib.Core.Path.{subst}
use jellybean.Memory.Arena.Gives.{arena}
use jellybean.Memory.Arena.Placement.{Every, Apart, WellPlaced, IsValid, InUse, not-Marked_zero}

clear_used-zero : (bs : List Block) → Every (λ b. b.used ≡ 0) (clear_used bs)
unfolding clear_used
clear_used-zero [] = tt
clear_used-zero (b ∷ bs) = (refl, clear_used-zero bs)

clear_used-Apart :
    (c : Block) (bs : List Block) → Every (Apart c) bs → Every (Apart c) (clear_used bs)
unfolding clear_used
clear_used-Apart c [] h = tt
clear_used-Apart c (b ∷ bs) h = (h.0, clear_used-Apart c bs h.1)

clear_used-WellPlaced : (bs : List Block) → WellPlaced bs → WellPlaced (clear_used bs)
unfolding clear_used
clear_used-WellPlaced [] w = tt
clear_used-WellPlaced (b ∷ bs) w = (
  record { nonnull = w.0.nonnull; inside = w.0.inside; marked = omega arith },
  clear_used-Apart b bs w.1,
  clear_used-WellPlaced bs w.2,
)

sum_used-zero : (bs : List Block) → Every (λ b. b.used ≡ 0) bs → sum_used bs ≡ 0
unfolding sum_used
sum_used-zero [] z = refl
sum_used-zero (b ∷ bs) z = omega (arith, z.0, sum_used-zero bs z.1)

-- What holds after a rewind over blocks with no mark.
record IsEmptied (a : Arena) : Type 0 where
  valid : IsValid a
  free : (x : ℕ) → ¬ InUse a x
  none_allocated : bytes_allocated a ≡ 0

rewind-IsEmptied :
    (a : Arena) (bs : List Block)
    → WellPlaced bs
    → Every (λ b. b.used ≡ 0) bs
    → bs ≢ []
    → IsEmptied (rewind a bs)
unfolding rewind bytes_allocated
rewind-IsEmptied a [] w z ne = absurd (ne refl)
rewind-IsEmptied a (b ∷ bs) w z ne = record {
  valid = record {
    placed = w;
    bumps = (omega arith, omega (arith, w.0.inside), omega (arith, w.0.inside), z.1);
  };
  free = λ x. elim [
    | inl h ↦ h
    | inr (inl h) ↦ omega arith
    | inr (inr h) ↦ not-Marked_zero bs x z.1 h
  ];
  none_allocated = omega (arith, sum_used-zero bs z.1, w.0.inside);
}

clear_used-ne : (xs : List Block) (b : Block) (ys : List Block) → clear_used (xs ++ (b ∷ ys)) ≢ []
unfolding clear_used
clear_used-ne [] b ys = ground arith
clear_used-ne (x ∷ xs) b ys = ground arith

cleared-IsEmptied :
    (blocks : Chain) (current end block_size total : ℕ)
    → IsValid (arena current end blocks block_size total)
    → IsEmptied (rewind (arena current end blocks block_size total) (clear_used (linked blocks)))
unfolding rewind clear_used bytes_allocated
cleared-IsEmptied Chain.empty current end block_size total v = record {
  valid = v;
  free = λ x h. h;
  none_allocated = refl;
}
cleared-IsEmptied (Chain.chain before head after) current end block_size total v =
    rewind-IsEmptied (arena current end (Chain.chain before head after) block_size total)
      (clear_used (before ++ (head ∷ after)))
      (clear_used-WellPlaced (before ++ (head ∷ after)) v.placed)
      (clear_used-zero (before ++ (head ∷ after))) (clear_used-ne before head after)

abbrev freed : Option (ℕ × Arena) → List ℕ
freed none = []
freed (some (p, a)) = destroy a

rewound-slow :
    (a a' : Arena) (first : Block) (rest : List Block) (size alignment d p : ℕ)
    → allocate_slow (rewind a (clear_used (first ∷ rest))) size alignment (some d) ≡ some (p, a')
    → destroy a' ≡ first.data_at ∷ d ∷ []
unfolding rewind clear_used allocate_slow allocate_block destroy
rewound-slow a a' first rest size alignment d p h = ap freed (sym h)

-- After the `reset` of a valid arena the arena is valid, the byte at no address counts as handed
-- out, and `bytes_allocated` is 0.
pub reset_lem :
    (a : Arena) (x : ℕ)
    → IsValid a
    → IsValid (reset a) × (¬ InUse (reset a) x) × (bytes_allocated (reset a) ≡ 0)
unfolding reset
reset_lem a x v =
    let e = cleared-IsEmptied a.blocks a.current a.end a.block_size a.total_allocated v in
    (e.valid, e.free x, e.none_allocated)

-- If an arena with blocks is reset and a later request goes to the slow path, only the first block
-- and the new one are linked: the destructor gives back these two, and no other block of the arena.
pub destroy-reset-slow :
    (a a' : Arena) (first : Block) (rest : List Block) (size alignment data_at p : ℕ)
    → linked a.blocks ≡ first ∷ rest
    → allocate_slow (reset a) size alignment (some data_at) ≡ some (p, a')
    → destroy a' ≡ first.data_at ∷ data_at ∷ []
unfolding reset
destroy-reset-slow a a' first rest size alignment d p e h =
    rewound-slow a a' first rest size alignment d p (
      subst (λ bs. allocate_slow (rewind a (clear_used bs)) size alignment (some d) ≡ some (p, a'))
        e h)
