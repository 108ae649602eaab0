-- ===== src/Memory/Arena.antt =====
-- The bump allocator of include/jellybean/memory/arena.hpp and src/memory/arena.cpp.
-- Addresses are numbers, and nullptr is 0. `std::malloc` is no code of the repository: a call that
-- may need a block takes its answer, the address of `data` in the new storage, or `none`.
-- `none` as a result is an abort: a failed assertion, or storage refused.
pub mod Placement
pub mod Gives
pub mod Allocate
pub mod Reset
use jellybean.Base.{ℕ, ◌*◌, ◌≤◌, ◌<◌, max, Option, none, some, not, List, [], ◌∷◌, ◌++◌, map}
use jellybean.Base.{bit_and, ltb, leb, ◌==◌, if◌then◌else◌}
use jellybean.Base.Words.{add64, sub64, not64}

-- `struct Block`, without its link: the lists of a chain hold the order.
pub record Block : Type 0 where
  pub data_at : ℕ  -- the address of `data`
  pub size : ℕ
  pub used : ℕ

-- The linked list from `first_block_` on. `head_` points to one of its blocks: those before it and
-- those behind it are apart. Both pointers are null together.
pub data Chain : Type 0 where
  empty : Chain
  chain : (before : List Block) (head : Block) (after : List Block) → Chain

pub record Arena : Type 0 where
  pub current : ℕ
  pub end : ℕ
  pub blocks : Chain
  pub block_size : ℕ
  pub total_allocated : ℕ

abbrev pub default_block_size : ℕ
default_block_size = 2 * 1024 * 1024

-- The constructor.
unfoldable pub make : ℕ → Arena
make block_size = record {
  current = 0;
  end = 0;
  blocks = Chain.empty;
  block_size = block_size;
  total_allocated = 0;
}

-- `(cur + alignment - 1) & ~(alignment - 1)`
unfoldable pub align_pointer : ℕ → ℕ → ℕ
align_pointer cur alignment = bit_and (sub64 (add64 cur alignment) 1) (not64 (sub64 alignment 1))

-- `head_->next = block; head_ = block`: what was linked behind `head_` is linked no more.
unfoldable pub append_block : Chain → Block → Chain
append_block Chain.empty block = Chain.chain [] block []
append_block (Chain.chain before head after) block = Chain.chain (before ++ (head ∷ [])) block []

unfoldable pub allocate_block : Arena → ℕ → Option ℕ → Option (Block × Arena)
allocate_block a min_size none = none
allocate_block a min_size (some data_at) =
    let size = max a.block_size min_size in
    let block : Block = record { data_at = data_at; size = size; used = 0 } in
    some (
      block,
      record a {
        blocks = append_block a.blocks block;
        total_allocated = add64 a.total_allocated size;
      },
    )

-- `head_->used = current_ - head_->data`, if there is a head.
unfoldable pub record_used : Chain → ℕ → Chain
record_used Chain.empty current = Chain.empty
record_used (Chain.chain before head after) current =
    Chain.chain before (record head { used = sub64 current head.data_at }) after

unfoldable pub allocate_slow : Arena → ℕ → ℕ → Option ℕ → Option (ℕ × Arena)
unfolding record_used allocate_block append_block align_pointer
allocate_slow a size alignment answer =
    elim (allocate_block (record a { blocks = record_used a.blocks a.current })
      (add64 size alignment) answer) [
        | none ↦ none
        | some (block, a') ↦
            let aligned = align_pointer block.data_at alignment in
            some (
              aligned,
              record a' { current = add64 aligned size; end = add64 block.data_at block.size },
            )
      ]

unfoldable pub allocate : Arena → ℕ → ℕ → Option ℕ → Option (ℕ × Arena)
unfolding align_pointer
allocate a size alignment answer =
    let aligned = align_pointer a.current alignment in
    let next = add64 aligned size in
    if alignment == 0
    then none
    else if not (bit_and alignment (sub64 alignment 1) == 0)
    then none
    else if ltb aligned a.current
    then none
    else if ltb next aligned
    then none
    else if leb next a.end
    then some (aligned, record a { current = next })
    else allocate_slow a size alignment answer

-- The walk of `bytes_allocated` over blocks that are not the head.
unfoldable pub sum_used : List Block → ℕ
sum_used [] = 0
sum_used (b ∷ bs) = add64 b.used (sum_used bs)

unfoldable pub bytes_allocated : Arena → ℕ
unfolding sum_used
bytes_allocated a = elim a.blocks [
  | Chain.empty ↦ 0
  | Chain.chain before head after ↦
      add64 (sum_used before) (add64 (sub64 a.current head.data_at) (sum_used after))
]

unfoldable pub bytes_wasted : Arena → ℕ
unfolding bytes_allocated
bytes_wasted a = sub64 a.total_allocated (bytes_allocated a)

-- Every blocks in the order of their links.
abbrev pub linked : Chain → List Block
linked Chain.empty = []
linked (Chain.chain before head after) = before ++ (head ∷ after)

-- The loop of `reset` that clears the marks.
unfoldable pub clear_used : List Block → List Block
clear_used [] = []
clear_used (b ∷ bs) = record b { used = 0 } ∷ clear_used bs

-- The end of `reset`: the first block is the head again.
unfoldable pub rewind : Arena → List Block → Arena
rewind a [] = a
rewind a (first ∷ rest) = record a {
  current = first.data_at;
  end = add64 first.data_at first.size;
  blocks = Chain.chain [] first rest;
}

unfoldable pub reset : Arena → Arena
unfolding clear_used rewind
reset a = rewind a (clear_used (linked a.blocks))

-- The destructor: the addresses that it gives back, in order.
unfoldable pub destroy : Arena → List ℕ
destroy a = map (λ b. b.data_at) (linked a.blocks)

-- The fields that a move leaves in its source; `block_size_` stays.
unfoldable pub moved_from : Arena → Arena
moved_from a = record a { current = 0; end = 0; blocks = Chain.empty; total_allocated = 0 }

-- The move constructor: the new arena and the old.
unfoldable pub move_construct : Arena → Arena × Arena
unfolding moved_from
move_construct other = (other, moved_from other)

-- Move assignment between two different arenas: the addresses given back, the target, the source.
unfoldable pub move_assign : Arena → Arena → List ℕ × Arena × Arena
unfolding destroy moved_from
move_assign this other = (destroy this, other, moved_from other)
