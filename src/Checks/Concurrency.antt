-- ===== src/Checks/Concurrency.antt =====
-- The ring of include/jellybean/concurrency/spsc_queue.hpp, at the wrap of its indices.
use jellybean.Base.{ℕ, ◌-◌, ◌^◌, ◌==◌, ◌≡◌, refl, arith, List, [], ◌∷◌, some, none, if◌then◌else◌}
use jellybean.Base.Bits.{IsPowerOfTwo}
use jellybean.Concurrency.Fifo
use jellybean.Concurrency.Spsc.{SpscQueue, try_push, try_pop}
use jellybean.Concurrency.Spsc.Refine.{Holds, try_push_refines, try_pop_refines}

two : IsPowerOfTwo 2
two = record { nonzero = omega arith; one_bit = refl; small = omega arith }

-- One item in the last slot before the wrap.
abbrev at_wrap : SpscQueue ℕ
at_wrap = record { head = 2 ^ 64 - 1; tail = 0; buffer = λ i. if i == 1 then some 5 else none }

abbrev one_item : List ℕ
one_item = 5 ∷ []

at_wrap-Holds : Holds 2 at_wrap (5 ∷ [])
at_wrap-Holds = record {
  head_lt = omega arith;
  tail_at = refl;
  room = omega arith;
  window = (refl, tt);
}

push_at_wrap : (try_push 2 at_wrap 6).1.tail ≡ 1
unfolding try_push
push_at_wrap = refl

try_push_refines_example :
    ((try_push 2 at_wrap 6).0 ≡ (Fifo.push 2 one_item 6).0)
    × Holds 2 (try_push 2 at_wrap 6).1 (Fifo.push 2 one_item 6).1
try_push_refines_example = try_push_refines 2 two one_item 6 at_wrap-Holds

try_pop_refines_example :
    ((try_pop 2 at_wrap).0 ≡ (Fifo.pop one_item).0)
    × Holds 2 (try_pop 2 at_wrap).1 (Fifo.pop one_item).1
try_pop_refines_example = try_pop_refines 2 two one_item at_wrap-Holds
