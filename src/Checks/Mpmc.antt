-- ===== src/Checks/Mpmc.antt =====
-- The queue of include/jellybean/concurrency/mpmc_queue.hpp with two slots.
use jellybean.Base.{ℕ, ◌≡◌, refl, arith, Bool, true, false, some, List, [], ◌∷◌}
use jellybean.Concurrency.Fifo
use jellybean.Concurrency.Mpmc.{MpmcQueue, make_mpmc, pushed, emplace_item, pop_item}
use jellybean.Concurrency.Mpmc.Refine.{Holds, pushed-Holds, make_mpmc-Holds}
use jellybean.Concurrency.Mpmc.Loops.{emplace-Ends, try_pop-Ends}

-- The first CAS fails for no reason.
abbrev swaps : List Bool
swaps = false ∷ true ∷ []

emplace-Ends_example :
    (q' : MpmcQueue ℕ) × (emplace_item 2 swaps make_mpmc 7
      ≡ some ((Fifo.push {T = ℕ} 2 [] 7).0, q'))
    × Holds 2 q' (Fifo.push {T = ℕ} 2 [] 7).1
emplace-Ends_example = emplace-Ends 2 (1, refl) (omega arith) [] 7 swaps (make_mpmc-Holds 2) tt

abbrev one_item : MpmcQueue ℕ
one_item = pushed 2 make_mpmc 0 7

one_item-Holds : Holds 2 one_item (7 ∷ [])
one_item-Holds = pushed-Holds 2 (1, refl) (omega arith) [] 7 (make_mpmc-Holds 2) (omega arith)

try_pop-Ends_example :
    (q' : MpmcQueue ℕ) × (pop_item 2 swaps one_item ≡ some ((Fifo.pop {T = ℕ} (7 ∷ [])).0, q'))
    × Holds 2 q' (Fifo.pop {T = ℕ} (7 ∷ [])).1
try_pop-Ends_example = try_pop-Ends 2 (1, refl) (omega arith) (7 ∷ []) swaps one_item-Holds tt
