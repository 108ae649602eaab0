-- ===== src/Scheduler/Deque/Threads/Stealing.antt =====
-- The steps of `steal`.
use mathlib.Core.Path.{subst}
use jellybean.Base.{
  ℕ, ◌+◌, ◌≤◌, ◌<◌, ◌≡◌, refl, sym, ◌∙◌, arith, true, Bool-cases, inl, inr, Option, List, [], ◌∷◌,
  ◌++◌, length, ◌==◌,
}
use jellybean.Scheduler.Deque.{load_item}
use jellybean.Scheduler.Deque.Threads.{
  Owner, resting, measured, storing, publishing, lowering, racing, restoring, Stealer, idle,
  loaded_top, passed, has_array, has_item, Threads, passes, check_bottom, claim, with_stealer,
}
use jellybean.Scheduler.Deque.Threads.Valid.{
  cell, OwnerIsValid, StealerIsValid, AllStealersValid, AllStealersValid-middle,
  AllStealersValid-one, Keeps, unchanged-Stays, stealers-Stay,
}
use jellybean.Scheduler.Deque.Threads.Popping.{Kept, took_first, took_first-Keeps}

OwnerIsValid-stealers :
    (s : Threads) (xs : List ℕ) (stealers : List Stealer) (o : Owner)
    → OwnerIsValid s xs o
    → OwnerIsValid (record s { stealers = stealers }) xs o
OwnerIsValid-stealers s xs stealers resting v = v
OwnerIsValid-stealers s xs stealers (measured item t) v = v
OwnerIsValid-stealers s xs stealers (storing item) v = v
OwnerIsValid-stealers s xs stealers (publishing item) v = v
OwnerIsValid-stealers s xs stealers lowering v = v
OwnerIsValid-stealers s xs stealers (racing t item) v = v
OwnerIsValid-stealers s xs stealers restoring v = v

-- A step of one stealer that changes nothing else.
with_stealer-Keeps :
    (s : Threads) (xs : List ℕ) (before after : List Stealer) (x y : Stealer)
    → s.stealers ≡ before ++ (x ∷ after)
    → (StealerIsValid s x → StealerIsValid s y)
    → Keeps s xs
    → Keeps (with_stealer s before y after) xs
with_stealer-Keeps s xs before after x y h f v = record {
  pow = v.pow;
  ends = v.ends;
  room = v.room;
  window = v.window;
  owner = OwnerIsValid-stealers s xs (before ++ (y ∷ after)) s.owner v.owner;
  stealers =
      stealers-Stay s (with_stealer s before y after) (before ++ (y ∷ after))
        (unchanged-Stays s s.lowered s.owner (before ++ (y ∷ after)) s.pushed s.taken)
        (AllStealersValid-middle s before after x y (subst (AllStealersValid s) h v.stealers) f);
  items = v.items;
  once = v.once;
}

stealer_at :
    (s : Threads) (xs : List ℕ) (before after : List Stealer) (x : Stealer)
    → s.stealers ≡ before ++ (x ∷ after)
    → Keeps s xs
    → StealerIsValid s x
stealer_at s xs before after x h v =
    AllStealersValid-one s before after x (subst (AllStealersValid s) h v.stealers)

pub begins_steal-Keeps :
    (s : Threads) (xs : List ℕ) (before after : List Stealer)
    → s.stealers ≡ before ++ (idle ∷ after)
    → Keeps s xs
    → Keeps (with_stealer s before (loaded_top s.top) after) xs
begins_steal-Keeps s xs before after h v =
    with_stealer-Keeps s xs before after idle (loaded_top s.top) h (λ u. omega arith) v

passes-lt : (s : Threads) (t : ℕ) → passes t s ≡ true → t < s.bottom
passes-lt s t e = elim (Bool-cases s.lowered) [
  | inl low ↦ ground (arith, low, e)
  | inr high ↦ ground (arith, high, e)
]

check_bottom-IsValid : (s : Threads) (t : ℕ) → t ≤ s.top → StealerIsValid s (check_bottom t s)
unfolding check_bottom
check_bottom-IsValid s t le = elim (Bool-cases (passes t s)) [
  | inl pass ↦ rw pass (le, λ e. passes-lt s t pass)
  | inr fail ↦ rw fail tt
]

pub checks-Keeps :
    (s : Threads) (xs : List ℕ) (before after : List Stealer) (t : ℕ)
    → s.stealers ≡ before ++ (loaded_top t ∷ after)
    → Keeps s xs
    → Keeps (with_stealer s before (check_bottom t s) after) xs
checks-Keeps s xs before after t h v =
    with_stealer-Keeps s xs before after (loaded_top t) (check_bottom t s) h
      (check_bottom-IsValid s t) v

pub loads_array-Keeps :
    (s : Threads) (xs : List ℕ) (before after : List Stealer) (t : ℕ)
    → s.stealers ≡ before ++ (passed t ∷ after)
    → Keeps s xs
    → Keeps (with_stealer s before (has_array t s.current) after) xs
loads_array-Keeps s xs before after t h v =
    with_stealer-Keeps s xs before after (passed t) (has_array t s.current) h
      (λ u. (u.0, omega arith, λ e. (u.1 e, refl))) v

pub loads_item-Keeps :
    (s : Threads) (xs : List ℕ) (before after : List Stealer) (t a : ℕ)
    → s.stealers ≡ before ++ (has_array t a ∷ after)
    → Keeps s xs
    → Keeps (with_stealer s before (has_item t (load_item (s.arrays a) t)) after) xs
loads_item-Keeps s xs before after t a h v =
    with_stealer-Keeps s xs before after (has_array t a) (has_item t (load_item (s.arrays a) t)) h
      (λ u. (u.0, u.2)) v

-- The owner, when a stealer takes the first item.
OwnerIsValid-took_first :
    (s : Threads) (x : ℕ) (xs : List ℕ) (t : ℕ) (item : Option ℕ) (o : Owner)
    → s.top ≡ t
    → s.bottom ≡ s.top + length (x ∷ xs)
    → OwnerIsValid s (x ∷ xs) o
    → OwnerIsValid (took_first s t item s.owner) xs o
OwnerIsValid-took_first s x xs t item resting at ends v = v
OwnerIsValid-took_first s x xs t item (measured i p) at ends v = (v.0, omega (arith, at, v.1), v.2)
OwnerIsValid-took_first s x xs t item (storing i) at ends v = (v.0, omega (arith, v.1))
OwnerIsValid-took_first s x xs t item (publishing i) at ends v = (v.0, omega (arith, v.1), v.2)
OwnerIsValid-took_first s x xs t item lowering at ends v = v
OwnerIsValid-took_first s x xs t item (racing p i) at ends v =
    (v.0, v.1, omega (arith, at, v.2), v.3)
OwnerIsValid-took_first s x xs t item restoring at ends v = absurd (omega (arith, v.1, ends))

claimed-Keeps :
    (s : Threads) (xs : List ℕ) (t : ℕ) (item : Option ℕ)
    → s.top ≡ t
    → t < s.bottom
    → item ≡ cell s t
    → Keeps s xs
    → Kept (took_first s t item s.owner)
claimed-Keeps s [] t item at below is_item v = absurd (omega (arith, v.ends, at, below))
claimed-Keeps s (x ∷ xs) t item at below is_item v = (
  xs,
  took_first-Keeps s x xs t item s.owner at is_item (λ i. refl)
      (OwnerIsValid-took_first s x xs t item s.owner at v.ends v.owner) v,
)

claim-Kept :
    (s : Threads) (xs : List ℕ) (t : ℕ) (item : Option ℕ)
    → StealerIsValid s (has_item t item)
    → Keeps s xs
    → Kept (claim t item s)
unfolding claim
claim-Kept s xs t item u v = elim (Bool-cases (s.top == t)) [
  | inl won ↦
      let at : s.top ≡ t = ground (arith, won) in
      rw won (claimed-Keeps s xs t item at (u.1 (sym at)).0 (u.1 (sym at)).1 v)
  | inr lost ↦ rw lost (xs, v)
]

claim-stealers : (s : Threads) (t : ℕ) (item : Option ℕ) → (claim t item s).stealers ≡ s.stealers
unfolding claim
claim-stealers s t item = elim (Bool-cases (s.top == t)) [
  | inl won ↦ rw won refl
  | inr lost ↦ rw lost refl
]

pub claims-Kept :
    (s : Threads) (xs : List ℕ) (before after : List Stealer) (t : ℕ) (item : Option ℕ)
    → s.stealers ≡ before ++ (has_item t item ∷ after)
    → Keeps s xs
    → Kept (with_stealer (claim t item s) before idle after)
claims-Kept s xs before after t item h v =
    let (xs', v') = claim-Kept s xs t item (stealer_at s xs before after (has_item t item) h v) v in
    (
      xs',
      with_stealer-Keeps (claim t item s) xs' before after (has_item t item) idle
          (claim-stealers s t item ∙ h) (λ u. tt) v',
    )
