-- ===== src/Checks/Seqlock.antt =====
-- The lock of include/jellybean/concurrency/seqlock.hpp: a write, and then a read of two cells.
use jellybean.Base.{ℕ, ◌≡◌, refl, some, [], ◌∷◌}
use jellybean.Concurrency.Seqlock.{
  Reader, System, put_cell, initial, enter, write_cell, leave, begin, read_cell, Reach, here,
  then_step, write_round, write_end, read_round, read_end,
}
use jellybean.Concurrency.Seqlock.Consistent.{AllSeen, read_end-AllSeen}

abbrev zeros : ℕ → ℕ
zeros i = 0

abbrev entered : System ℕ
entered = record (initial zeros) { seq = 1; writing = 0 ∷ [] }

abbrev written : System ℕ
written = record entered { cells = put_cell zeros 1 5 }

abbrev left : System ℕ
left = record written { seq = 2; writing = [] }

abbrev both_cells : Reader ℕ
both_cells = record { started = 2; seen = (1, 5) ∷ (0, 0) ∷ [] }

abbrev read_both : System ℕ
read_both = record left { reader = some both_cells }

writes : Reach (initial zeros) written
unfolding write_round
writes =
    then_step (then_step here (enter (initial zeros) 0 1 refl))
      (write_cell entered [] [] 0 1 5 refl)

reads : Reach (initial zeros) read_both
unfolding read_round write_end
reads =
    then_step
      (then_step (then_step (then_step writes (leave written [] [] 0 refl)) (begin left 2 refl)) (
        read_cell (record left { reader = some (record { started = 2; seen = [] }) })
          (record { started = 2; seen = [] }) 0 refl))
      (read_cell (record left { reader = some (record { started = 2; seen = (0, 0) ∷ [] }) })
        (record { started = 2; seen = (0, 0) ∷ [] }) 1 refl)

read_end-AllSeen_example : (read_both.writing ≡ []) × AllSeen read_both.cells both_cells.seen
unfolding read_end
read_end-AllSeen_example = read_end-AllSeen zeros both_cells reads refl refl
