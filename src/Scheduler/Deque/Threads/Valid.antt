-- ===== src/Scheduler/Deque/Threads/Valid.antt =====
-- What holds between two steps of the threads of a deque.
use jellybean.Base.{
  ℕ, ◌+◌, ◌≤◌, ◌<◌, ◌≡◌, ◌≢◌, refl, sym, ap, ◌∙◌, arith, Bool, true, false, Option, none, some,
  List, [], ◌∷◌, ◌++◌, length, ◌==◌, if◌then◌else◌,
}
use jellybean.Concurrency.Spsc.Refine.{Window}
use jellybean.Scheduler.Deque.{Array, load_item}
use jellybean.Scheduler.Deque.Copy.{IsPow}
use jellybean.Scheduler.Deque.Threads.{
  Owner, resting, measured, storing, publishing, lowering, racing, restoring, Stealer, idle,
  loaded_top, passed, has_array, has_item, Threads, array_of, put_array,
}

abbrev pub hit : ℕ → ℕ → ℕ
hit i x = if i == x then 1 else 0

-- How often an item occurs.
abbrev pub occurs : ℕ → List ℕ → ℕ
occurs i [] = 0
occurs i (x ∷ xs) = hit i x + occurs i xs

pub occurs-append : (i : ℕ) (xs ys : List ℕ) → occurs i (xs ++ ys) ≡ occurs i xs + occurs i ys
occurs-append i [] ys = omega arith
occurs-append i (x ∷ xs) ys = omega (arith, occurs-append i xs ys)

abbrev pub hit_option : ℕ → Option ℕ → ℕ
hit_option i none = 0
hit_option i (some x) = hit i x

abbrev pub occurs_option : ℕ → List (Option ℕ) → ℕ
occurs_option i [] = 0
occurs_option i (o ∷ os) = hit_option i o + occurs_option i os

-- No slot that was never stored to has been taken.
abbrev pub AllItems : List (Option ℕ) → Type 0
AllItems [] = Unit
AllItems (none ∷ os) = ⊥
AllItems (some x ∷ os) = AllItems os

-- The item of a push that is under way.
abbrev pub in_push : ℕ → Owner → ℕ
in_push i resting = 0
in_push i (measured item t) = hit i item
in_push i (storing item) = hit i item
in_push i (publishing item) = hit i item
in_push i lowering = 0
in_push i (racing t item) = 0
in_push i restoring = 0

abbrev pub cell : Threads → ℕ → Option ℕ
cell s p = load_item (array_of s) p

abbrev pub OwnerIsValid : Threads → List ℕ → Owner → Type 0
OwnerIsValid s xs resting = s.lowered ≡ false
OwnerIsValid s xs (measured item t) =
    (s.lowered ≡ false) × (t ≤ s.top) × (s.bottom ≤ t + (array_of s).capacity)
OwnerIsValid s xs (storing item) = (s.lowered ≡ false) × (length xs < (array_of s).capacity)
OwnerIsValid s xs (publishing item) =
    (s.lowered ≡ false) × (length xs < (array_of s).capacity) × (cell s s.bottom ≡ some item)
OwnerIsValid s xs lowering = s.lowered ≡ true
OwnerIsValid s xs (racing t item) =
    (s.lowered ≡ true) × (t + 1 ≡ s.bottom) × (t ≤ s.top) × (item ≡ cell s t)
OwnerIsValid s xs restoring = (s.lowered ≡ true) × (s.top ≡ s.bottom)

-- A stealer whose CAS can still succeed has the right item, and that is in the deque.
abbrev pub StealerIsValid : Threads → Stealer → Type 0
StealerIsValid s idle = Unit
StealerIsValid s (loaded_top t) = t ≤ s.top
StealerIsValid s (passed t) = (t ≤ s.top) × (t ≡ s.top → t < s.bottom)
StealerIsValid s (has_array t a) =
    (t ≤ s.top)
    × (a ≤ s.current)
    × (t ≡ s.top → (t < s.bottom) × (load_item (s.arrays a) t ≡ cell s t))
StealerIsValid s (has_item t item) = (t ≤ s.top) × (t ≡ s.top → (t < s.bottom) × (item ≡ cell s t))

abbrev pub AllStealersValid : Threads → List Stealer → Type 0
AllStealersValid s [] = Unit
AllStealersValid s (x ∷ xs) = StealerIsValid s x × AllStealersValid s xs

-- The items from `top` to `bottom`. Each item that was pushed is taken, in the deque, or on its way
-- into it.
pub record Keeps (s : Threads) (xs : List ℕ) : Type 0 where
  pub pow : IsPow (array_of s).capacity
  pub ends : s.bottom ≡ s.top + length xs
  pub room : length xs ≤ (array_of s).capacity
  pub window : Window (array_of s).capacity (array_of s).storage s.top xs
  pub owner : OwnerIsValid s xs s.owner
  pub stealers : AllStealersValid s s.stealers
  pub once : (i : ℕ) → occurs i s.pushed ≡ occurs_option i s.taken + occurs i xs + in_push i s.owner
  pub items : AllItems s.taken

pub put_array-same : (arrays : ℕ → Array ℕ) (k : ℕ) (a : Array ℕ) → put_array arrays k a k ≡ a
put_array-same arrays k a =
    ap (λ b. if b then a else arrays k) (let e : (k == k) ≡ true = ground arith in e)

pub put_array-other :
    (arrays : ℕ → Array ℕ) (k j : ℕ) (a : Array ℕ) → k ≢ j → put_array arrays k a j ≡ arrays j
put_array-other arrays k j a ne =
    ap (λ b. if b then a else arrays j) (let e : (k == j) ≡ false = ground (arith, ne) in e)

-- What a step may do to what the stealers have loaded.
pub record Stays (s s' : Threads) : Type 0 where
  pub up : s.top ≤ s'.top
  pub more : s.current ≤ s'.current
  pub same :
      (t : ℕ)
      → t ≡ s.top
      → t ≡ s'.top
      → t < s.bottom
      → (t < s'.bottom)
        × (cell s' t ≡ cell s t)
        × ((a : ℕ)
            → a ≤ s.current
            → load_item (s.arrays a) t ≡ cell s t
            → load_item (s'.arrays a) t ≡ cell s' t)

stealer-Stays :
    (s s' : Threads) (x : Stealer) → Stays s s' → StealerIsValid s x → StealerIsValid s' x
stealer-Stays s s' idle k v = tt
stealer-Stays s s' (loaded_top t) k v = omega (arith, k.up, v)
stealer-Stays s s' (passed t) k v = (
  omega (arith, k.up, v.0),
  λ e. let at_top : t ≡ s.top = omega (arith, k.up, v.0, e) in (k.same t at_top e (v.1 at_top)).0,
)
stealer-Stays s s' (has_array t a) k v = (
  omega (arith, k.up, v.0),
  omega (arith, k.more, v.1),
  λ e.
      let at_top : t ≡ s.top = omega (arith, k.up, v.0, e) in
      let (below, loads) = v.2 at_top in
      let (below', kept, arrays) = k.same t at_top e below in (below', arrays a v.1 loads),
)
stealer-Stays s s' (has_item t item) k v = (
  omega (arith, k.up, v.0),
  λ e.
      let at_top : t ≡ s.top = omega (arith, k.up, v.0, e) in
      let (below, is_item) = v.1 at_top in
      let (below', kept, arrays) = k.same t at_top e below in (below', is_item ∙ sym kept),
)

pub stealers-Stay :
    (s s' : Threads) (xs : List Stealer)
    → Stays s s'
    → AllStealersValid s xs
    → AllStealersValid s' xs
stealers-Stay s s' [] k v = tt
stealers-Stay s s' (x ∷ xs) k v = (stealer-Stays s s' x k v.0, stealers-Stay s s' xs k v.1)

-- A step that changes neither the positions nor the arrays.
pub unchanged-Stays :
    (s : Threads) (lowered : Bool) (owner : Owner) (stealers : List Stealer) (pushed : List ℕ)
    (taken : List (Option ℕ))
    → Stays s (record s {
      lowered = lowered;
      owner = owner;
      stealers = stealers;
      pushed = pushed;
      taken = taken;
    })
unchanged-Stays s lowered owner stealers pushed taken = record {
  up = omega arith;
  more = omega arith;
  same = λ t e e' below. (below, refl, λ a le h. h);
}

-- The stealers but one, and that one.
pub AllStealersValid-middle :
    (s : Threads) (before after : List Stealer) (x y : Stealer)
    → AllStealersValid s (before ++ (x ∷ after))
    → (StealerIsValid s x → StealerIsValid s y)
    → AllStealersValid s (before ++ (y ∷ after))
AllStealersValid-middle s [] after x y v f = (f v.0, v.1)
AllStealersValid-middle s (z ∷ before) after x y v f =
    (v.0, AllStealersValid-middle s before after x y v.1 f)

pub AllStealersValid-one :
    (s : Threads) (before after : List Stealer) (x : Stealer)
    → AllStealersValid s (before ++ (x ∷ after))
    → StealerIsValid s x
AllStealersValid-one s [] after x v = v.0
AllStealersValid-one s (z ∷ before) after x v = AllStealersValid-one s before after x v.1
