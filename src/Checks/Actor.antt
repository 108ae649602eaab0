-- ===== src/Checks/Actor.antt =====
-- Messages on a heap of a few blocks.
use jellybean.Base.{ℕ, arith, Option, none, some, List, [], ◌∷◌, replicate}
use jellybean.Actor.Message.{Heap}
use jellybean.Actor.Message.Gains.{IsMalloc}
use jellybean.Actor.Message.Program.{
  Command, create, drop, copy_new, move_new, destroy_one, assign, assign_moved, set_value, run,
}
use jellybean.Actor.Message.Safe.{IsSafe}
use jellybean.Actor.Message.Runs.{run-IsSafe}

abbrev if_free : ℕ → Option (List ℕ) → Option ℕ → Option ℕ
if_free p none other = some p
if_free p (some bytes) other = other

-- The first free block of three.
abbrev first_free : Heap → ℕ → Option ℕ
first_free h n = if_free 1 (h 1) (if_free 2 (h 2) (if_free 3 (h 3) none))

first_free-IsMalloc : IsMalloc first_free
first_free-IsMalloc h n p e = ground (arith, e)

abbrev long_value : List ℕ
long_value = replicate 50 7

-- A large message, its copy, a move of the copy, and assignments.
abbrev program : List Command
program =
    create
    ∷ set_value 0 long_value
    ∷ copy_new 0
    ∷ move_new 0
    ∷ create
    ∷ assign 0 3
    ∷ assign_moved 3 1
    ∷ drop
    ∷ destroy_one 0
    ∷ []

run-IsSafe_example : IsSafe (run first_free [] program (λ p. none))
run-IsSafe_example = run-IsSafe first_free first_free-IsMalloc program
