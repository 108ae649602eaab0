-- ===== src/Scheduler/Deque/Threads/Reached.antt =====
-- What holds in every state that the threads of a deque reach.
use jellybean.Base.{ℕ, zero, suc, ◌+◌, ◌^◌, ◌≡◌, refl, arith, List, [], ◌∷◌, ◌++◌, length}
use jellybean.Concurrency.Spsc.Refine.{Window}
use jellybean.Scheduler.Deque.Threads.{
  array_of, Threads, Step, begins_push, makes_room, stores, publishes, lowers, looks, races,
  restores, begins_steal, checks, loads_array, loads_item, claims, Reach, here, then_step,
  idle_stealers, initial,
}
use jellybean.Scheduler.Deque.Threads.Valid.{
  AllItems, occurs, occurs_option, in_push, AllStealersValid, Keeps,
}
use jellybean.Scheduler.Deque.Threads.Owning.{begin_push-Keeps, make_room-Keeps}
use jellybean.Scheduler.Deque.Threads.Storing.{store_bottom-Keeps, publish-Keeps}
use jellybean.Scheduler.Deque.Threads.Popping.{
  Kept, lower-Keeps, look-Keeps, race-Keeps, restore-Keeps,
}
use jellybean.Scheduler.Deque.Threads.Stealing.{
  begins_steal-Keeps, checks-Keeps, loads_array-Keeps, loads_item-Keeps, claims-Kept,
}

idle_stealers-AllStealersValid : (s : Threads) (n : ℕ) → AllStealersValid s (idle_stealers n)
idle_stealers-AllStealersValid s zero = tt
idle_stealers-AllStealersValid s (suc n) = (tt, idle_stealers-AllStealersValid s n)

initial-Keeps : (k n : ℕ) → Keeps (initial (2 ^ k) n) []
initial-Keeps k n = record {
  pow = (k, refl);
  ends = refl;
  room = omega arith;
  window = tt;
  owner = refl;
  stealers = idle_stealers-AllStealersValid (initial (2 ^ k) n) n;
  once = λ i. refl;
  items = tt;
}

step-Kept : {s s' : Threads} → Step s s' → Kept s → Kept s'
step-Kept (begins_push s item h) (xs, v) = (xs, begin_push-Keeps s xs item h v)
step-Kept (makes_room s item t h) (xs, v) = (xs, make_room-Keeps s xs item t h v)
step-Kept (stores s item h) (xs, v) = (xs, store_bottom-Keeps s xs item h v)
step-Kept (publishes s item h) (xs, v) = (xs ++ (item ∷ []), publish-Keeps s xs item h v)
step-Kept (lowers s h) (xs, v) = (xs, lower-Keeps s xs h v)
step-Kept (looks s h) (xs, v) = look-Keeps s xs h v
step-Kept (races s t item h) (xs, v) = race-Keeps s xs t item h v
step-Kept (restores s h) (xs, v) = (xs, restore-Keeps s xs h v)
step-Kept (begins_steal s before after h) (xs, v) = (xs, begins_steal-Keeps s xs before after h v)
step-Kept (checks s before after t h) (xs, v) = (xs, checks-Keeps s xs before after t h v)
step-Kept (loads_array s before after t h) (xs, v) = (xs, loads_array-Keeps s xs before after t h v)
step-Kept (loads_item s before after t a h) (xs, v) =
    (xs, loads_item-Keeps s xs before after t a h v)
step-Kept (claims s before after t item h) (xs, v) = claims-Kept s xs before after t item h v

reach-Kept : {s t : Threads} → Reach s t → Kept s → Kept t
reach-Kept here v = v
reach-Kept (then_step r st) v = step-Kept st (reach-Kept r v)

-- However the steps of the owner and of n stealers of a new deque interleave, as long as they do so
-- one at a time: the items in the deque are the ones that lie in the current array from `top_` to
-- `bottom_`; nothing is taken that was not stored; and each item has been pushed as often as it has
-- been taken, is in the deque, or is on its way in by the owner's push, so that none is lost and none
-- is taken twice.
pub Reach-EachOnce :
    (k n : ℕ) (s : Threads)
    → Reach (initial (2 ^ k) n) s
    → (xs : List ℕ) × (s.bottom ≡ s.top + length xs)
      × Window (array_of s).capacity (array_of s).storage s.top xs
      × AllItems s.taken
      × ((i : ℕ) → occurs i s.pushed ≡ occurs_option i s.taken + occurs i xs + in_push i s.owner)
Reach-EachOnce k n s r =
    let (xs, v) = reach-Kept r ([], initial-Keeps k n) in (xs, v.ends, v.window, v.items, v.once)
