-- ===== src/Scheduler/Deque.antt =====
-- `WorkStealingDeque` of include/jellybean/scheduler/work_stealing_deque.hpp, one operation at a time:
-- the CAS on `top_` succeeds then. The indices stay below 2^63, as no signed overflow may happen in
-- the source, and are natural numbers. Storage is `none` where nothing was stored yet.
pub mod Copy
pub mod Refine
pub mod Runs
pub mod Threads
use jellybean.Base.{
  ℕ, zero, suc, ◌+◌, ◌-◌, ◌*◌, Bool, Option, none, some, List, [], ◌∷◌, bit_and, ltb, ◌==◌,
  if◌then◌else◌,
}
use jellybean.Concurrency.Spsc.{put_slot}

-- `struct Array`
pub record Array {ℓ} (T : Type ℓ) : Type ℓ where
  pub capacity : ℕ
  pub storage : ℕ → Option T

pub record WorkStealingDeque {ℓ} (T : Type ℓ) : Type ℓ where
  pub top : ℕ
  pub bottom : ℕ
  pub array : Array T
  pub garbage : List (Array T)

abbrev pub mask : ℕ → ℕ → ℕ
mask capacity i = bit_and i (capacity - 1)

module _ {ℓ} {T : Type ℓ} where
  abbrev pub new_array : ℕ → Array T
  new_array capacity = record { capacity = capacity; storage = λ i. none }

  abbrev pub load_item : Array T → ℕ → Option T
  load_item a i = a.storage (mask a.capacity i)

  abbrev pub store_item : Array T → ℕ → Option T → Array T
  store_item a i v = record a { storage = put_slot a.storage (mask a.capacity i) v }

  abbrev pub make_deque : ℕ → WorkStealingDeque T
  make_deque initial_capacity = record {
    top = 0;
    bottom = 0;
    array = new_array initial_capacity;
    garbage = [];
  }

  -- The loop of `resize`: the items at `i` and the `n - 1` places behind it.
  unfoldable pub copy_items : ℕ → ℕ → Array T → Array T → Array T
  copy_items zero i old new = new
  copy_items (suc n) i old new = copy_items n (i + 1) old (store_item new i (load_item old i))

  unfoldable pub resize : WorkStealingDeque T → WorkStealingDeque T
  unfolding copy_items
  resize d = record d {
    array = copy_items (d.bottom - d.top) d.top d.array (new_array (d.array.capacity * 2));
    garbage = d.array ∷ d.garbage;
  }

  abbrev pub put_bottom : WorkStealingDeque T → T → WorkStealingDeque T
  put_bottom d item = record d {
    array = store_item d.array d.bottom (some item);
    bottom = d.bottom + 1;
  }

  unfoldable pub push : WorkStealingDeque T → T → WorkStealingDeque T
  unfolding resize
  push d item =
      if ltb (d.array.capacity - 1) (d.bottom - d.top)
      then put_bottom (resize d) item
      else put_bottom d item

  -- With `b` for `bottom - 1`, which may be -1: the test `t <= b` is `t < bottom`.
  unfoldable pub pop : WorkStealingDeque T → Option T × WorkStealingDeque T
  pop d =
      let b = d.bottom - 1 in
      if ltb d.top d.bottom
      then (
        load_item d.array b,
        (if d.top == b
            then record d { top = d.top + 1; bottom = b + 1 }
            else record d { bottom = b }),
      )
      else (none, d)

  unfoldable pub steal : WorkStealingDeque T → Option T × WorkStealingDeque T
  steal d =
      if ltb d.top d.bottom
      then (load_item d.array d.top, record d { top = d.top + 1 })
      else (none, d)
