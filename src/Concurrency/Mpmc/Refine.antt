-- ===== src/Concurrency/Mpmc/Refine.antt =====
-- The queue of src's MpmcQueue holds a bounded FIFO.
use jellybean.Base.{
  ℕ, ◌+◌, ◌-◌, ◌%◌, ◌≤◌, ◌<◌, ◌≡◌, ◌≢◌, refl, sym, ap, ◌∙◌, arith, Bool, true, false, none, some,
  List, [], ◌∷◌, ◌++◌, length, length-append, ltb, dec_lt, ℕ_discrete, if◌then◌else◌,
}
use jellybean.Concurrency.Spsc.{put_slot, slot_of}
use jellybean.Concurrency.Spsc.Index.{mod-ne}
use jellybean.Concurrency.Spsc.Refine.{Window, Window-put, Window-append}
use jellybean.Concurrency.Mpmc.{MpmcQueue, put_sequence, make_mpmc, pushed, popped}
use jellybean.Scheduler.Deque.Copy.{IsPow, mask-mod}
use native.Mathlib.Nat.{add-mod_right, mod-eq_of_lt}

-- Some CAS does not fail for no reason.
abbrev pub Swaps : List Bool → Type 0
Swaps [] = ⊥
Swaps (true ∷ more) = Unit
Swaps (false ∷ more) = Swaps more

-- Different steps below the capacity lead to different slots.
steps-differ : (c d i j : ℕ) → i < c → j < c → i ≢ j → (d + i) % c ≢ (d + j) % c
steps-differ c d i j lt lt' ne e = elim (dec_lt i j) [
  | yes up ↦
      mod-ne c (d + i) (j - i) (omega arith) (omega arith)
        (e ∙ ap (λ (t : ℕ). t % c) (let g : d + j ≡ d + i + (j - i) = omega arith in g))
  | no down ↦
      mod-ne c (d + j) (i - j) (omega (arith, ne)) (omega arith)
        (sym e ∙ ap (λ (t : ℕ). t % c) (let g : d + i ≡ d + j + (i - j) = omega (arith, ne) in g))
]

put_sequence-same : (sequence : ℕ → ℕ) (s t v : ℕ) → s ≡ t → put_sequence sequence s v t ≡ v
put_sequence-same sequence s t v e = ground arith

put_sequence-other :
    (sequence : ℕ → ℕ) (s t v : ℕ) → s ≢ t → put_sequence sequence s v t ≡ sequence t
put_sequence-other sequence s t v e = ground arith

module _ {T : Type 0} (capacity : ℕ) where
  -- The queue holds these items: they lie in the slots from `dequeue_pos` on, and the sequence of each
  -- slot tells its next position, one more if an object lives there.
  pub record Holds (q : MpmcQueue T) (xs : List T) : Type 0 where
    pub ends : q.enqueue_pos ≡ q.dequeue_pos + length xs
    pub room : length xs ≤ capacity
    pub window : Window capacity q.slots q.dequeue_pos xs
    pub turns :
        (i : ℕ)
        → i < capacity
        → q.sequence ((q.dequeue_pos + i) % capacity)
          ≡ q.dequeue_pos + i + (if ltb i (length xs) then 1 else 0)

  module _ (pow : IsPow capacity) (two : 2 ≤ capacity) {q : MpmcQueue T} where
    pub tail_slot :
        (xs : List T)
        → Holds q xs
        → slot_of capacity q.enqueue_pos ≡ (q.dequeue_pos + length xs) % capacity
    tail_slot xs v = mask-mod capacity q.enqueue_pos pow ∙ ap (λ (t : ℕ). t % capacity) v.ends

    pushed-turns :
        (xs : List T) (item : T)
        → Holds q xs
        → length xs < capacity
        → (i : ℕ) → i < capacity
        → (pushed capacity q q.enqueue_pos item).sequence ((q.dequeue_pos + i) % capacity)
          ≡ q.dequeue_pos + i + (if ltb i (length xs + 1) then 1 else 0)
    pushed-turns xs item v lt i below = elim (ℕ_discrete i (length xs)) [
      | yes here ↦
          put_sequence-same q.sequence (slot_of capacity q.enqueue_pos)
            ((q.dequeue_pos + i) % capacity) (q.enqueue_pos + 1)
            (tail_slot xs v ∙ ap (λ (t : ℕ). (q.dequeue_pos + t) % capacity) (sym here))
          ∙ ground (arith, v.ends, here)
      | no there ↦
          put_sequence-other q.sequence (slot_of capacity q.enqueue_pos)
            ((q.dequeue_pos + i) % capacity) (q.enqueue_pos + 1)
            (λ e.
              steps-differ capacity q.dequeue_pos i (length xs) below lt there
                (sym e ∙ tail_slot xs v))
          ∙ v.turns i below
          ∙ ground (arith, there)
    ]

    pub pushed-Holds :
        (xs : List T) (item : T)
        → Holds q xs
        → length xs < capacity
        → Holds (pushed capacity q q.enqueue_pos item) (xs ++ (item ∷ []))
    pushed-Holds xs item v lt = record {
      ends = omega (arith, v.ends, length-append xs (item ∷ []));
      room = omega (arith, length-append xs (item ∷ []));
      window =
          Window-append capacity (put_slot q.slots (slot_of capacity q.enqueue_pos) (some item))
            q.dequeue_pos xs item (ground (arith, tail_slot xs v))
            (Window-put capacity q.slots (slot_of capacity q.enqueue_pos) (some item) q.dequeue_pos
              xs
              (λ i below e.
                steps-differ capacity q.dequeue_pos i (length xs) (omega arith) lt (omega arith)
                  (sym e ∙ tail_slot xs v))
              v.window);
      turns = λ i below.
          pushed-turns xs item v lt i below
          ∙ ap (λ (n : ℕ). q.dequeue_pos + i + (if ltb i n then 1 else 0))
              (let e : length xs + 1 ≡ length (xs ++ (item ∷ [])) =
                  omega (arith, length-append xs (item ∷ [])) in
                e);
    }

    popped-turns :
        (x : T) (rest : List T)
        → Holds q (x ∷ rest)
        → (i : ℕ) → i < capacity
        → (popped capacity q q.dequeue_pos).sequence ((q.dequeue_pos + 1 + i) % capacity)
          ≡ q.dequeue_pos + 1 + i + (if ltb i (length rest) then 1 else 0)
    popped-turns x rest v i below = elim (ℕ_discrete (i + 1) capacity) [
      | yes here ↦
          put_sequence-same q.sequence (slot_of capacity q.dequeue_pos)
            ((q.dequeue_pos + 1 + i) % capacity) (q.dequeue_pos + (capacity - 1) + 1)
            (mask-mod capacity q.dequeue_pos pow
              ∙ sym (add-mod_right q.dequeue_pos capacity)
              ∙ ap (λ (t : ℕ). t % capacity)
                  (let e : q.dequeue_pos + capacity ≡ q.dequeue_pos + 1 + i = omega arith in e))
          ∙ ground (arith, here, v.room)
      | no there ↦
          put_sequence-other q.sequence (slot_of capacity q.dequeue_pos)
            ((q.dequeue_pos + 1 + i) % capacity) (q.dequeue_pos + (capacity - 1) + 1)
            (λ e. mod-ne capacity q.dequeue_pos (i + 1) (omega arith) (omega (arith, there)) (
              sym (mask-mod capacity q.dequeue_pos pow)
              ∙ e
              ∙ ap (λ (t : ℕ). t % capacity)
                  (let g : q.dequeue_pos + 1 + i ≡ q.dequeue_pos + (i + 1) = omega arith in g)))
          ∙ ap (λ (t : ℕ). q.sequence (t % capacity))
              (let g : q.dequeue_pos + 1 + i ≡ q.dequeue_pos + (i + 1) = omega arith in g)
          ∙ v.turns (i + 1) (omega (arith, there))
          ∙ ground arith
    ]

    pub popped-Holds :
        (x : T) (rest : List T) → Holds q (x ∷ rest) → Holds (popped capacity q q.dequeue_pos) rest
    popped-Holds x rest v = record {
      ends = omega (arith, v.ends);
      room = omega (arith, v.room);
      window =
          Window-put capacity q.slots (slot_of capacity q.dequeue_pos) none (q.dequeue_pos + 1) rest
            (λ i below e.
              mod-ne capacity q.dequeue_pos (1 + i) (omega arith) (omega (arith, v.room)) (
                sym (mask-mod capacity q.dequeue_pos pow)
                ∙ e
                ∙ ap (λ (t : ℕ). t % capacity)
                    (let g : q.dequeue_pos + 1 + i ≡ q.dequeue_pos + (1 + i) = omega arith in g)))
            v.window.1;
      turns = popped-turns x rest v;
    }

  pub make_mpmc-Holds : Holds make_mpmc []
  make_mpmc-Holds = record {
    ends = refl;
    room = omega arith;
    window = tt;
    turns = λ i below. mod-eq_of_lt (let e : 0 + i < capacity = omega arith in e) ∙ ground arith;
  }
