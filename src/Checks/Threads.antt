-- ===== src/Checks/Threads.antt =====
-- The threads of include/jellybean/scheduler/work_stealing_deque.hpp: one item, which the owner and a
-- stealer are after at the same time.
use jellybean.Base.{ℕ, ◌+◌, ◌^◌, ◌≡◌, refl, some, List, [], ◌∷◌, length}
use jellybean.Concurrency.Spsc.Refine.{Window}
use jellybean.Scheduler.Deque.Threads.{
  idle, loaded_top, passed, has_array, has_item, Threads, array_of, begin_push, make_room,
  store_bottom, publish, lower, look, race, check_bottom, claim, with_stealer, begins_push,
  makes_room, stores, publishes, lowers, looks, races, begins_steal, checks, loads_array,
  loads_item, claims, Reach, here, then_step, initial,
}
use jellybean.Scheduler.Deque.Threads.Valid.{AllItems, occurs, occurs_option, in_push}
use jellybean.Scheduler.Deque.Threads.Reached.{Reach-EachOnce}

abbrev pushed_7 : Threads
unfolding begin_push make_room store_bottom publish
pushed_7 = publish (store_bottom 7 (make_room 7 0 (begin_push 7 (initial (2 ^ 1) 1))))

pushed_7_reached : Reach (initial (2 ^ 1) 1) pushed_7
unfolding pushed_7 begin_push make_room store_bottom publish
pushed_7_reached =
    then_step
      (then_step
        (then_step (then_step here (begins_push (initial (2 ^ 1) 1) 7 refl))
          (makes_room (begin_push 7 (initial (2 ^ 1) 1)) 7 0 refl))
        (stores (make_room 7 0 (begin_push 7 (initial (2 ^ 1) 1))) 7 refl))
      (publishes (store_bottom 7 (make_room 7 0 (begin_push 7 (initial (2 ^ 1) 1)))) 7 refl)

-- The stealer has the item, and the owner is about to race for it.
abbrev contended : Threads
unfolding pushed_7 lower look
contended = look (lower (with_stealer pushed_7 [] (has_item 0 (some 7)) []))

contended_reached : Reach (initial (2 ^ 1) 1) contended
unfolding contended pushed_7 begin_push make_room store_bottom publish check_bottom lower look
contended_reached =
    then_step
      (then_step
        (then_step
          (then_step
            (then_step (then_step pushed_7_reached (begins_steal pushed_7 [] [] refl))
              (checks (with_stealer pushed_7 [] (loaded_top 0) []) [] [] 0 refl))
            (loads_array (with_stealer pushed_7 [] (passed 0) []) [] [] 0 refl))
          (loads_item (with_stealer pushed_7 [] (has_array 0 0) []) [] [] 0 0 refl))
        (lowers (with_stealer pushed_7 [] (has_item 0 (some 7)) []) refl))
      (looks (lower (with_stealer pushed_7 [] (has_item 0 (some 7)) [])) refl)

abbrev decided : Threads
unfolding contended claim race
decided = race 0 (some 7) (with_stealer (claim 0 (some 7) contended) [] idle [])

decided_reached : Reach (initial (2 ^ 1) 1) decided
unfolding decided contended pushed_7 begin_push make_room store_bottom publish lower look claim race
decided_reached =
    then_step (then_step contended_reached (claims contended [] [] 0 (some 7) refl))
      (races (with_stealer (claim 0 (some 7) contended) [] idle []) 0 (some 7) refl)

decided_once : decided.taken ≡ some 7 ∷ []
unfolding decided contended pushed_7 begin_push make_room store_bottom publish lower look claim race
decided_once = refl

Reach-EachOnce_example :
    (xs : List ℕ) × (decided.bottom ≡ decided.top + length xs)
    × Window (array_of decided).capacity (array_of decided).storage decided.top xs
    × AllItems decided.taken
    × ((i : ℕ)
        → occurs i decided.pushed
          ≡ occurs_option i decided.taken + occurs i xs + in_push i decided.owner)
Reach-EachOnce_example = Reach-EachOnce 1 1 decided decided_reached
