-- ===== src/Scheduler/Deque/Threads/Popping.antt =====
-- The steps of the owner's `pop`.
use mathlib.Core.Path.{subst}
use jellybean.Base.{
  ℕ, ◌+◌, ◌-◌, ◌%◌, ◌<◌, ◌≡◌, refl, sym, ap, ◌∙◌, arith, Bool, true, false, Bool-cases, inl, inr,
  Option, some, List, [], ◌∷◌, length, ltb, ◌==◌,
}
use jellybean.Concurrency.Spsc.Refine.{Window}
use jellybean.Scheduler.Deque.{load_item}
use jellybean.Scheduler.Deque.Copy.{mask-mod}
use jellybean.Scheduler.Deque.Refine.{take_last, Window-last}
use jellybean.Scheduler.Deque.Threads.{
  Owner, resting, lowering, racing, restoring, Threads, array_of, lower, look, race, restore,
}
use jellybean.Scheduler.Deque.Threads.Valid.{
  AllItems, occurs, occurs_option, hit_option, in_push, cell, OwnerIsValid, Keeps, unchanged-Stays,
  stealers-Stay,
}

-- The invariant with what is in the deque.
abbrev pub Kept : Threads → Type 0
Kept s = (xs : List ℕ) × Keeps s xs

-- A step that changes only where the owner is, outside `push`.
moved-Keeps :
    (s : Threads) (xs : List ℕ) (lowered : Bool) (owner : Owner)
    → Keeps s xs
    → ((i : ℕ) → in_push i s.owner ≡ in_push i owner)
    → OwnerIsValid (record s { lowered = lowered; owner = owner }) xs owner
    → Keeps (record s { lowered = lowered; owner = owner }) xs
moved-Keeps s xs lowered owner v e o = record {
  pow = v.pow;
  ends = v.ends;
  room = v.room;
  window = v.window;
  owner = o;
  stealers =
      stealers-Stay s (record s { lowered = lowered; owner = owner }) s.stealers
        (unchanged-Stays s lowered owner s.stealers s.pushed s.taken) v.stealers;
  items = v.items;
  once = λ i. v.once i ∙ ap (λ (n : ℕ). occurs_option i s.taken + occurs i xs + n) (e i);
}

pub lower-Keeps : (s : Threads) (xs : List ℕ) → s.owner ≡ resting → Keeps s xs → Keeps (lower s) xs
unfolding lower
lower-Keeps s xs h v = moved-Keeps s xs true lowering v (λ i. ap (in_push i) h) refl

pub restore-Keeps :
    (s : Threads) (xs : List ℕ) → s.owner ≡ restoring → Keeps s xs → Keeps (restore s) xs
unfolding restore
restore-Keeps s xs h v = moved-Keeps s xs false resting v (λ i. ap (in_push i) h) refl

occurs-take_last :
    (i x : ℕ) (xs : List ℕ)
    → occurs i (x ∷ xs) ≡ hit_option i (take_last (x ∷ xs)).0 + occurs i (take_last (x ∷ xs)).1
occurs-take_last i x [] = omega arith
occurs-take_last i x (y ∷ ys) = omega (arith, occurs-take_last i y ys)

take_last-some : (x : ℕ) (xs : List ℕ) → (y : ℕ) × ((take_last (x ∷ xs)).0 ≡ some y)
take_last-some x [] = (x, refl)
take_last-some x (y ∷ ys) = take_last-some y ys

take-AllItems :
    (o : Option ℕ) (x : ℕ) (os : List (Option ℕ)) → o ≡ some x → AllItems os → AllItems (o ∷ os)
take-AllItems o x os e all = subst (λ p. AllItems (p ∷ os)) (sym e) all

-- The cell of an item that a position below `bottom` has.
cell-mod :
    (s : Threads) (xs : List ℕ) (p q : ℕ)
    → Keeps s xs
    → p ≡ q
    → cell s p ≡ (array_of s).storage (q % (array_of s).capacity)
cell-mod s xs p q v e =
    ap (array_of s).storage
      (mask-mod (array_of s).capacity p v.pow ∙ ap (λ (t : ℕ). t % (array_of s).capacity) e)

-- `pop` with at least two items.
abbrev took_last : Threads → Threads
took_last s = record s {
  bottom = s.bottom - 1;
  lowered = false;
  owner = resting;
  taken = load_item (array_of s) (s.bottom - 1) ∷ s.taken;
}

took_last-Keeps :
    (s : Threads) (xs : List ℕ)
    → s.owner ≡ lowering
    → s.top + 1 < s.bottom
    → Keeps s xs
    → Kept (took_last s)
took_last-Keeps s [] h lt v = absurd (omega (arith, lt, v.ends))
took_last-Keeps s (x ∷ xs) h lt v =
    let (last, rest, n) =
      Window-last (array_of s).capacity s.top (array_of s).storage x xs v.window in
    (
      (take_last (x ∷ xs)).1,
      record {
        pow = v.pow;
        ends = omega (arith, v.ends, n);
        room = omega (arith, v.room, n);
        window = rest;
        owner = refl;
        stealers =
            stealers-Stay s (took_last s) s.stealers
              (record {
                up = omega arith;
                more = omega arith;
                same = λ t e e' below. (omega (arith, lt, e), refl, λ a le loads. loads);
              })
              v.stealers;
        items =
            take-AllItems (cell s (s.bottom - 1)) (take_last-some x xs).0 s.taken
              (cell-mod s (x ∷ xs) (s.bottom - 1) (s.top + length xs) v (omega (arith, v.ends))
                ∙ last
                ∙ (take_last-some x xs).1)
              v.items;
        once = λ i. omega (
          arith,
          v.once i,
          occurs-take_last i x xs,
          ap (in_push i) h,
          ap (hit_option i) (
              cell-mod s (x ∷ xs) (s.bottom - 1) (s.top + length xs) v (omega (arith, v.ends))
              ∙ last),
        );
      },
    )

pub look-Keeps : (s : Threads) (xs : List ℕ) → s.owner ≡ lowering → Keeps s xs → Kept (look s)
unfolding look
look-Keeps s xs h v =
    let low = (let o : OwnerIsValid s xs lowering = subst (OwnerIsValid s xs) h v.owner in o) in
    elim (Bool-cases (ltb (s.top + 1) s.bottom)) [
      | inl two ↦ rw two (took_last-Keeps s xs h (ground (arith, two)) v)
      | inr few ↦ rw few (elim (Bool-cases (s.top + 1 == s.bottom)) [
        | inl one ↦ rw one (
          xs,
          moved-Keeps s xs s.lowered (racing s.top (load_item (array_of s) (s.bottom - 1))) v
              (λ i. ap (in_push i) h)
              (
                low,
                ground (arith, one),
                omega arith,
                ap (cell s) (let e : s.bottom - 1 ≡ s.top = ground (arith, one) in e),
              ),
        )
        | inr no_item ↦ rw no_item (
          xs,
          moved-Keeps s xs s.lowered restoring v (λ i. ap (in_push i) h)
              (low, ground (arith, few, no_item, v.ends)),
        )
      ])
    ]

-- `pop` with one item, when its CAS succeeds.
abbrev pub took_first : Threads → ℕ → Option ℕ → Owner → Threads
took_first s t item owner = record s { top = t + 1; owner = owner; taken = item ∷ s.taken }

pub took_first-Keeps :
    (s : Threads) (x : ℕ) (xs : List ℕ) (t : ℕ) (item : Option ℕ) (owner : Owner)
    → s.top ≡ t
    → item ≡ cell s t
    → ((i : ℕ) → in_push i s.owner ≡ in_push i owner)
    → OwnerIsValid (took_first s t item owner) xs owner
    → Keeps s (x ∷ xs)
    → Keeps (took_first s t item owner) xs
took_first-Keeps s x xs t item owner at is_item e o v = record {
  pow = v.pow;
  ends = omega (arith, v.ends, at);
  room = omega (arith, v.room);
  window =
      subst (λ (p : ℕ). Window (array_of s).capacity (array_of s).storage (p + 1) xs) at v.window.1;
  owner = o;
  stealers =
      stealers-Stay s (took_first s t item owner) s.stealers
        (record {
          up = omega (arith, at);
          more = omega arith;
          same = λ p e e' below. absurd (omega (arith, at, e, e'));
        })
        v.stealers;
  items =
      take-AllItems item x s.taken (is_item ∙ cell-mod s (x ∷ xs) t s.top v (sym at) ∙ v.window.0)
        v.items;
  once = λ i. omega (
    arith,
    v.once i,
    e i,
    ap (hit_option i) (is_item ∙ cell-mod s (x ∷ xs) t s.top v (sym at) ∙ v.window.0),
  );
}

won-Keeps :
    (s : Threads) (xs : List ℕ) (t : ℕ) (item : Option ℕ)
    → s.owner ≡ racing t item
    → s.top ≡ t
    → OwnerIsValid s xs (racing t item)
    → Keeps s xs
    → Kept (took_first s t item restoring)
won-Keeps s [] t item h at o v = absurd (omega (arith, v.ends, at, o.1))
won-Keeps s (x ∷ xs) t item h at o v =
    (xs, took_first-Keeps s x xs t item restoring at o.3 (λ i. ap (in_push i) h) (o.0, o.1) v)

pub race-Keeps :
    (s : Threads) (xs : List ℕ) (t : ℕ) (item : Option ℕ)
    → s.owner ≡ racing t item
    → Keeps s xs
    → Kept (race t item s)
unfolding race
race-Keeps s xs t item h v =
    let o : OwnerIsValid s xs (racing t item) = subst (OwnerIsValid s xs) h v.owner in
    elim (Bool-cases (s.top == t)) [
      | inl won ↦ rw won (won-Keeps s xs t item h (ground (arith, won)) o v)
      | inr lost ↦ rw lost (
        xs,
        moved-Keeps s xs s.lowered restoring v (λ i. ap (in_push i) h)
            (o.0, ground (arith, lost, o.1, o.2, v.ends)),
      )
    ]
