-- ===== src/Scheduler/Deque/Threads/Storing.antt =====
-- The end of the owner's `push`: the item is stored, and then published.
use mathlib.Core.Path.{subst}
use jellybean.Base.{
  ℕ, ◌+◌, ◌-◌, ◌%◌, ◌≤◌, ◌<◌, ◌≡◌, ◌≢◌, refl, sym, ap, ◌∙◌, arith, false, ℕ_discrete, some, List,
  [], ◌∷◌, ◌++◌, length, length-append, ◌==◌, if◌then◌else◌,
}
use jellybean.Concurrency.Spsc.Index.{mod-ne}
use jellybean.Concurrency.Spsc.Refine.{Window, Window-put, Window-append}
use jellybean.Scheduler.Deque.{Array, mask, load_item, store_item}
use jellybean.Scheduler.Deque.Copy.{IsPow, mask-mod}
use jellybean.Scheduler.Deque.Threads.{
  storing, publishing, Threads, array_of, store_bottom, publish,
}
use jellybean.Scheduler.Deque.Threads.Valid.{
  occurs-append, occurs, occurs_option, in_push, cell, OwnerIsValid, Keeps, put_array-same,
  put_array-other, Stays, stealers-Stay,
}

module _ (s : Threads) (xs : List ℕ) (item : ℕ) (h : s.owner ≡ storing item) (v : Keeps s xs) where
  storing-valid : OwnerIsValid s xs (storing item)
  storing-valid = subst (OwnerIsValid s xs) h v.owner

  stored : Array ℕ
  stored = store_item (array_of s) s.bottom (some item)

  slot : mask (array_of s).capacity s.bottom ≡ (s.top + length xs) % (array_of s).capacity
  slot =
      mask-mod (array_of s).capacity s.bottom v.pow
      ∙ ap (λ (t : ℕ). t % (array_of s).capacity) v.ends

  stored-array : array_of (store_bottom item s) ≡ stored
  unfolding store_bottom stored
  stored-array = put_array-same s.arrays s.current (store_item (array_of s) s.bottom (some item))

  slot-ne :
      (i : ℕ)
      → i < length xs
      → mask (array_of s).capacity s.bottom ≢ (s.top + i) % (array_of s).capacity
  slot-ne i below e =
      mod-ne (array_of s).capacity (s.top + i) (length xs - i) (omega (arith, below))
        (omega (arith, storing-valid.1))
        (sym e
          ∙ slot
          ∙ ap (λ (t : ℕ). t % (array_of s).capacity)
              (let g : s.top + length xs ≡ s.top + i + (length xs - i) = omega (arith, below) in g))

  stored-cell : (p : ℕ) → s.top ≤ p → p < s.bottom → load_item stored p ≡ cell s p
  unfolding stored
  stored-cell p le lt =
      ap (λ b. if b then some item else cell s p)
        (let e : (mask (array_of s).capacity s.bottom == mask (array_of s).capacity p) ≡ false =
            ground (
              arith,
              slot-ne (p - s.top) (omega (arith, v.ends, le, lt)),
              mask-mod (array_of s).capacity p v.pow,
              ap (λ (t : ℕ). t % (array_of s).capacity)
                  (let g : s.top + (p - s.top) ≡ p = omega (arith, le) in g),
            ) in
          e)

  store_bottom-cell : (p : ℕ) → s.top ≤ p → p < s.bottom → cell (store_bottom item s) p ≡ cell s p
  store_bottom-cell p le lt = ap (λ (a : Array ℕ). load_item a p) stored-array ∙ stored-cell p le lt

  store_bottom-arrays :
      (a p : ℕ)
      → s.top ≤ p
      → p < s.bottom
      → load_item (s.arrays a) p ≡ cell s p
      → load_item ((store_bottom item s).arrays a) p ≡ cell (store_bottom item s) p
  unfolding store_bottom
  store_bottom-arrays a p le lt e = elim (ℕ_discrete s.current a) [
    | yes same ↦ ap (λ (b : ℕ). load_item ((store_bottom item s).arrays b) p) (sym same)
    | no other ↦
        ap (λ (b : Array ℕ). load_item b p)
          (put_array-other s.arrays s.current a (store_item (array_of s) s.bottom (some item))
            other)
        ∙ e
        ∙ sym (store_bottom-cell p le lt)
  ]

  store_bottom-Stays : Stays s (store_bottom item s)
  unfolding store_bottom
  store_bottom-Stays = record {
    up = omega arith;
    more = omega arith;
    same = λ p e e' below. (
      below,
      store_bottom-cell p (omega (arith, e)) below,
      λ a le loads. store_bottom-arrays a p (omega (arith, e)) below loads,
    );
  }

  stored-Window : Window stored.capacity stored.storage s.top xs
  unfolding stored
  stored-Window =
      Window-put (array_of s).capacity (array_of s).storage (mask (array_of s).capacity s.bottom)
        (some item) s.top xs slot-ne v.window

  stored-last : load_item stored s.bottom ≡ some item
  unfolding stored
  stored-last = ground arith

  stored-capacity : stored.capacity ≡ (array_of s).capacity
  unfolding stored
  stored-capacity = refl

  store_bottom-capacity : (array_of (store_bottom item s)).capacity ≡ (array_of s).capacity
  store_bottom-capacity = ap (λ (a : Array ℕ). a.capacity) stored-array ∙ stored-capacity

  pub store_bottom-Keeps : Keeps (store_bottom item s) xs
  unfolding store_bottom
  store_bottom-Keeps = record {
    pow = subst IsPow (sym store_bottom-capacity) v.pow;
    ends = v.ends;
    room = omega (arith, store_bottom-capacity, v.room);
    window =
        subst (λ (a : Array ℕ). Window a.capacity a.storage s.top xs) (sym stored-array)
          stored-Window;
    owner = (
      storing-valid.0,
      omega (arith, store_bottom-capacity, storing-valid.1),
      ap (λ (a : Array ℕ). load_item a s.bottom) stored-array ∙ stored-last,
    );
    stealers = stealers-Stay s (store_bottom item s) s.stealers store_bottom-Stays v.stealers;
    items = v.items;
    once = λ i.
        v.once i ∙ ap (λ (n : ℕ). occurs_option i s.taken + occurs i xs + n) (ap (in_push i) h);
  }

publish-Stays : (s : Threads) → Stays s (publish s)
unfolding publish
publish-Stays s = record {
  up = omega arith;
  more = omega arith;
  same = λ t e e' below. (omega (arith, below), refl, λ a le h. h);
}

pub publish-Keeps :
    (s : Threads) (xs : List ℕ) (item : ℕ)
    → s.owner ≡ publishing item
    → Keeps s xs
    → Keeps (publish s) (xs ++ (item ∷ []))
unfolding publish
publish-Keeps s xs item h v =
    let (low, room, last) =
      (let o : OwnerIsValid s xs (publishing item) = subst (OwnerIsValid s xs) h v.owner in o) in
    record {
      pow = v.pow;
      ends = omega (arith, v.ends, length-append xs (item ∷ []));
      room = omega (arith, room, length-append xs (item ∷ []));
      window =
          Window-append (array_of s).capacity (array_of s).storage s.top xs item
            (ap (array_of s).storage (
                ap (λ (t : ℕ). t % (array_of s).capacity) (sym v.ends)
                ∙ sym (mask-mod (array_of s).capacity s.bottom v.pow))
              ∙ last)
            v.window;
      owner = low;
      stealers = stealers-Stay s (publish s) s.stealers (publish-Stays s) v.stealers;
      items = v.items;
      once = λ i. omega (arith, v.once i, ap (in_push i) h, occurs-append i xs (item ∷ []));
    }
