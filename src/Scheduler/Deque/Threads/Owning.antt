-- ===== src/Scheduler/Deque/Threads/Owning.antt =====
-- The steps of the owner's `push`.
use mathlib.Core.Path.{subst}
use jellybean.Base.{
  ℕ, suc, ◌+◌, ◌-◌, ◌*◌, ◌%◌, ◌≤◌, ◌<◌, ◌≡◌, sym, ap, ◌∙◌, arith, Bool-cases, inl, inr, Option,
  List, [], ◌∷◌, length, ltb,
}
use jellybean.Concurrency.Spsc.Refine.{Window}
use jellybean.Scheduler.Deque.{Array, load_item, new_array}
use jellybean.Scheduler.Deque.Copy.{
  IsPow, IsPow-pos, IsPow-double, mask-mod, copy_items-capacity, copy_items-cell,
}
use jellybean.Scheduler.Deque.Threads.{
  resting, measured, storing, Threads, array_of, put_array, wider, begin_push, make_room,
}
use jellybean.Scheduler.Deque.Threads.Valid.{
  occurs, occurs_option, in_push, cell, OwnerIsValid, Keeps, put_array-same, put_array-other, Stays,
  unchanged-Stays, stealers-Stay,
}

pub begin_push-Keeps :
    (s : Threads) (xs : List ℕ) (item : ℕ)
    → s.owner ≡ resting
    → Keeps s xs
    → Keeps (begin_push item s) xs
unfolding begin_push
begin_push-Keeps s xs item h v = record {
  pow = v.pow;
  ends = v.ends;
  room = v.room;
  window = v.window;
  owner = (subst (OwnerIsValid s xs) h v.owner, omega arith, omega (arith, v.ends, v.room));
  stealers =
      stealers-Stay s (begin_push item s) s.stealers
        (unchanged-Stays s s.lowered (measured item s.top) s.stealers (item ∷ s.pushed) s.taken)
        v.stealers;
  items = v.items;
  once = λ i. omega (arith, v.once i, ap (in_push i) h);
}

-- A window of the same cells.
Window-cells :
    (c c' h : ℕ) (buffer buffer' : ℕ → Option ℕ) (xs : List ℕ)
    → ((j : ℕ) → j < length xs → buffer' ((h + j) % c') ≡ buffer ((h + j) % c))
    → Window c buffer h xs
    → Window c' buffer' h xs
Window-cells c c' h buffer buffer' [] f w = tt
Window-cells c c' h buffer buffer' (x ∷ xs) f w = (
  ap (λ (t : ℕ). buffer' (t % c')) (let g : h ≡ h + 0 = omega arith in g)
      ∙ f 0 (omega arith)
      ∙ ap (λ (t : ℕ). buffer (t % c)) (let g : h + 0 ≡ h = omega arith in g)
      ∙ w.0,
  Window-cells c c' (h + 1) buffer buffer' xs
      (λ j lt.
        ap (λ (t : ℕ). buffer' (t % c')) (let g : h + 1 + j ≡ h + suc j = omega arith in g)
        ∙ f (suc j) (omega (arith, lt))
        ∙ ap (λ (t : ℕ). buffer (t % c)) (let g : h + suc j ≡ h + 1 + j = omega arith in g))
      w.1,
)

module _ (s : Threads) (xs : List ℕ) (item t : ℕ) (h : s.owner ≡ measured item t)
    (v : Keeps s xs) where
  measures : OwnerIsValid s xs (measured item t)
  measures = subst (OwnerIsValid s xs) h v.owner

  wider-capacity : (wider s t).capacity ≡ (array_of s).capacity * 2
  wider-capacity =
      copy_items-capacity (s.bottom - t) t (array_of s) (new_array ((array_of s).capacity * 2))

  -- The new array has the items of the old one from `top` on.
  wider-cell :
      (p : ℕ)
      → s.top ≤ p
      → p < s.bottom
      → (wider s t).storage (p % ((array_of s).capacity * 2))
        ≡ (array_of s).storage (p % (array_of s).capacity)
  wider-cell p le lt =
      ap (λ (q : ℕ). (wider s t).storage (q % ((array_of s).capacity * 2)))
        (let g : p ≡ t + (p - t) = omega (arith, measures.1, le) in g)
      ∙ copy_items-cell (s.bottom - t) t (p - t) (array_of s)
          (new_array ((array_of s).capacity * 2)) v.pow (IsPow-double (array_of s).capacity v.pow)
          (omega (arith, measures.2)) (omega (arith, measures.1, le, lt))
      ∙ ap (λ (q : ℕ). (array_of s).storage (q % (array_of s).capacity))
          (let g : t + (p - t) ≡ p = omega (arith, measures.1, le) in g)

  unfoldable grown : Threads
  grown = record s {
    arrays = put_array s.arrays (s.current + 1) (wider s t);
    current = s.current + 1;
    owner = storing item;
  }

  grown-array : array_of grown ≡ wider s t
  unfolding grown
  grown-array = put_array-same s.arrays (s.current + 1) (wider s t)

  grown-same : (a : ℕ) → a ≤ s.current → grown.arrays a ≡ s.arrays a
  unfolding grown
  grown-same a le =
      put_array-other s.arrays (s.current + 1) a (wider s t) (λ e. omega (arith, e, le))

  grown-cell : (p : ℕ) → s.top ≤ p → p < s.bottom → cell grown p ≡ cell s p
  grown-cell p le lt =
      ap (λ (a : Array ℕ). load_item a p) grown-array
      ∙ ap (wider s t).storage (
          mask-mod (wider s t).capacity p
            (subst IsPow (sym wider-capacity) (IsPow-double (array_of s).capacity v.pow))
          ∙ ap (λ (c : ℕ). p % c) wider-capacity)
      ∙ wider-cell p le lt
      ∙ ap (array_of s).storage (sym (mask-mod (array_of s).capacity p v.pow))

  grown-Stays : Stays s grown
  unfolding grown
  grown-Stays = record {
    up = omega arith;
    more = omega arith;
    same = λ p e e' below. (
      below,
      grown-cell p (omega (arith, e)) below,
      λ a le h.
          ap (λ (b : Array ℕ). load_item b p) (grown-same a le)
          ∙ h
          ∙ sym (grown-cell p (omega (arith, e)) below),
    );
  }

  grown-capacity : (array_of grown).capacity ≡ (array_of s).capacity * 2
  grown-capacity = ap (λ (a : Array ℕ). a.capacity) grown-array ∙ wider-capacity

  grown-Keeps : Keeps grown xs
  unfolding grown
  grown-Keeps = record {
    pow = subst IsPow (sym grown-capacity) (IsPow-double (array_of s).capacity v.pow);
    ends = v.ends;
    room = omega (arith, grown-capacity, v.room);
    window =
        Window-cells (array_of s).capacity (array_of grown).capacity s.top (array_of s).storage
          (array_of grown).storage xs
          (λ j lt.
            ap (λ (a : Array ℕ). a.storage ((s.top + j) % a.capacity)) grown-array
            ∙ ap (λ (c : ℕ). (wider s t).storage ((s.top + j) % c)) wider-capacity
            ∙ wider-cell (s.top + j) (omega arith) (omega (arith, v.ends, lt)))
          v.window;
    owner =
        (measures.0, omega (arith, grown-capacity, v.room, IsPow-pos (array_of s).capacity v.pow));
    stealers = stealers-Stay s grown s.stealers grown-Stays v.stealers;
    items = v.items;
    once = λ i.
        v.once i ∙ ap (λ (n : ℕ). occurs_option i s.taken + occurs i xs + n) (ap (in_push i) h);
  }

  pub make_room-Keeps : Keeps (make_room item t s) xs
  unfolding make_room grown
  make_room-Keeps = elim (Bool-cases (ltb ((array_of s).capacity - 1) (s.bottom - t))) [
    | inl full ↦ rw full grown-Keeps
    | inr fits ↦ rw fits (record {
      pow = v.pow;
      ends = v.ends;
      room = v.room;
      window = v.window;
      owner = (
        measures.0,
        ground (arith, fits, v.ends, measures.1, IsPow-pos (array_of s).capacity v.pow),
      );
      stealers =
          stealers-Stay s (record s { owner = storing item }) s.stealers
            (unchanged-Stays s s.lowered (storing item) s.stealers s.pushed s.taken) v.stealers;
      items = v.items;
      once = λ i.
          v.once i ∙ ap (λ (n : ℕ). occurs_option i s.taken + occurs i xs + n) (ap (in_push i) h);
    })
  ]
