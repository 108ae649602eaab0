-- ===== src/Scheduler/Deque/Threads.antt =====
-- The owner and the stealers of a `WorkStealingDeque` of
-- include/jellybean/scheduler/work_stealing_deque.hpp: a state machine with a step for each access to
-- `top_`, `bottom_`, `array_` and a slot that another thread may see change, in any order, under
-- sequential consistency. What the owner loads of `bottom_`, `array_` and the slots, which it alone
-- stores to, goes with the step at hand.
pub mod Valid
pub mod Owning
pub mod Storing
pub mod Popping
pub mod Stealing
pub mod Reached
use jellybean.Base.{
  ℕ, zero, suc, ◌+◌, ◌-◌, ◌*◌, ◌≡◌, Bool, true, false, Option, none, some, List, [], ◌∷◌, ◌++◌, ltb,
  ◌==◌, if◌then◌else◌,
}
use jellybean.Scheduler.Deque.{Array, new_array, load_item, store_item, copy_items}

-- Where the owner is: in `push` of an item, once it has loaded `top_`, once there is room, and once
-- the item is stored; in `pop`, once it has lowered `bottom_`, before the CAS on `top_`, and before
-- it sets `bottom_` back.
pub data Owner : Type 0 where
  resting : Owner
  measured : (item : ℕ) → (t : ℕ) → Owner
  storing publishing : (item : ℕ) → Owner
  lowering : Owner
  racing : (t : ℕ) → (item : Option ℕ) → Owner
  restoring : Owner

-- Where a stealer is in `steal`: what it has loaded so far.
pub data Stealer : Type 0 where
  idle : Stealer
  loaded_top passed : (t : ℕ) → Stealer
  has_array : (t a : ℕ) → Stealer
  has_item : (t : ℕ) → (item : Option ℕ) → Stealer

-- `bottom_` holds `bottom`, or one less, which may be -1, while `lowered`. The arrays are those of
-- `garbage_` and, as the `current` one, `array_`.
pub record Threads : Type 0 where
  pub top : ℕ
  pub bottom : ℕ
  pub lowered : Bool
  pub arrays : ℕ → Array ℕ
  pub current : ℕ
  pub owner : Owner
  pub stealers : List Stealer
  pub pushed : List ℕ  -- the items of all calls of push
  pub taken : List (Option ℕ)  -- what pop and steal have returned, but for nothing

abbrev pub put_array : (ℕ → Array ℕ) → ℕ → Array ℕ → ℕ → Array ℕ
put_array arrays k a j = if k == j then a else arrays j

abbrev pub array_of : Threads → Array ℕ
array_of s = s.arrays s.current

-- `push` up to its load of `top_`.
unfoldable pub begin_push : ℕ → Threads → Threads
begin_push item s = record s { owner = measured item s.top; pushed = item ∷ s.pushed }

-- The array of `resize`, with what it copies.
abbrev pub wider : Threads → ℕ → Array ℕ
wider s t = copy_items (s.bottom - t) t (array_of s) (new_array ((array_of s).capacity * 2))

unfoldable pub make_room : ℕ → ℕ → Threads → Threads
unfolding copy_items
make_room item t s =
    if ltb ((array_of s).capacity - 1) (s.bottom - t)
    then record s {
      arrays = put_array s.arrays (s.current + 1) (wider s t);
      current = s.current + 1;
      owner = storing item;
    }
    else record s { owner = storing item }

unfoldable pub store_bottom : ℕ → Threads → Threads
store_bottom item s = record s {
  arrays = put_array s.arrays s.current (store_item (array_of s) s.bottom (some item));
  owner = publishing item;
}

unfoldable pub publish : Threads → Threads
publish s = record s { bottom = s.bottom + 1; owner = resting }

unfoldable pub lower : Threads → Threads
lower s = record s { lowered = true; owner = lowering }

-- `pop` at its load of `top_`, with `b` for `bottom - 1`: the tests `t <= b` and `t == b`.
unfoldable pub look : Threads → Threads
look s =
    if ltb (s.top + 1) s.bottom
    then record s {
      bottom = s.bottom - 1;
      lowered = false;
      owner = resting;
      taken = load_item (array_of s) (s.bottom - 1) ∷ s.taken;
    }
    else if s.top + 1 == s.bottom
    then record s { owner = racing s.top (load_item (array_of s) (s.bottom - 1)) }
    else record s { owner = restoring }

-- The CAS of `pop`.
unfoldable pub race : ℕ → Option ℕ → Threads → Threads
race t item s =
    if s.top == t
    then record s { top = t + 1; owner = restoring; taken = item ∷ s.taken }
    else record s { owner = restoring }

unfoldable pub restore : Threads → Threads
restore s = record s { lowered = false; owner = resting }

-- `steal` at its load of `bottom_`.
abbrev pub passes : ℕ → Threads → Bool
passes t s = if s.lowered then ltb (t + 1) s.bottom else ltb t s.bottom

unfoldable pub check_bottom : ℕ → Threads → Stealer
check_bottom t s = if passes t s then passed t else idle

-- The CAS of `steal`.
unfoldable pub claim : ℕ → Option ℕ → Threads → Threads
claim t item s = if s.top == t then record s { top = t + 1; taken = item ∷ s.taken } else s

abbrev pub with_stealer : Threads → List Stealer → Stealer → List Stealer → Threads
with_stealer s before x after = record s { stealers = before ++ (x ∷ after) }

pub data Step : Threads → Threads → Type 0 where
  begins_push : (s : Threads) (item : ℕ) → s.owner ≡ resting → Step s (begin_push item s)
  makes_room : (s : Threads) (item t : ℕ) → s.owner ≡ measured item t → Step s (make_room item t s)
  stores : (s : Threads) (item : ℕ) → s.owner ≡ storing item → Step s (store_bottom item s)
  publishes : (s : Threads) (item : ℕ) → s.owner ≡ publishing item → Step s (publish s)
  lowers : (s : Threads) → s.owner ≡ resting → Step s (lower s)
  looks : (s : Threads) → s.owner ≡ lowering → Step s (look s)
  races : (s : Threads) (t : ℕ) (item : Option ℕ) → s.owner ≡ racing t item → Step s (race t item s)
  restores : (s : Threads) → s.owner ≡ restoring → Step s (restore s)
  begins_steal :
      (s : Threads) (before after : List Stealer)
      → s.stealers ≡ before ++ (idle ∷ after)
      → Step s (with_stealer s before (loaded_top s.top) after)
  checks :
      (s : Threads) (before after : List Stealer) (t : ℕ)
      → s.stealers ≡ before ++ (loaded_top t ∷ after)
      → Step s (with_stealer s before (check_bottom t s) after)
  loads_array :
      (s : Threads) (before after : List Stealer) (t : ℕ)
      → s.stealers ≡ before ++ (passed t ∷ after)
      → Step s (with_stealer s before (has_array t s.current) after)
  loads_item :
      (s : Threads) (before after : List Stealer) (t a : ℕ)
      → s.stealers ≡ before ++ (has_array t a ∷ after)
      → Step s (with_stealer s before (has_item t (load_item (s.arrays a) t)) after)
  claims :
      (s : Threads) (before after : List Stealer) (t : ℕ) (item : Option ℕ)
      → s.stealers ≡ before ++ (has_item t item ∷ after)
      → Step s (with_stealer (claim t item s) before idle after)

pub data Reach (s : Threads) : Threads → Type 0 where
  here : Reach s s
  then_step : {t u : Threads} → Reach s t → Step t u → Reach s u

-- A new deque, and stealers that have not begun.
abbrev pub idle_stealers : ℕ → List Stealer
idle_stealers zero = []
idle_stealers (suc n) = idle ∷ idle_stealers n

abbrev pub initial : ℕ → ℕ → Threads
initial capacity n = record {
  top = 0;
  bottom = 0;
  lowered = false;
  arrays = λ k. new_array capacity;
  current = 0;
  owner = resting;
  stealers = idle_stealers n;
  pushed = [];
  taken = [];
}
