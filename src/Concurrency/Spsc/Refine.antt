-- ===== src/Concurrency/Spsc/Refine.antt =====
-- The ring holds a bounded FIFO, whatever its indices are and across their wrap.
use jellybean.Base.{ℕ, suc, ◌+◌, ◌-◌, ◌%◌, ◌^◌, ◌≤◌, ◌<◌, ◌≡◌, ◌≢◌, sym, ap, ◌∙◌, arith}
use jellybean.Base.{List, [], ◌∷◌, ◌++◌, length, length-append, Option, some, none, true, false}
use jellybean.Base.{Bool-cases, ltb→lt, ltb, inl, inr}
use jellybean.Base.{refl}
use jellybean.Concurrency.Fifo
use jellybean.Base.Bits.{IsPowerOfTwo}
use jellybean.Base.Words.{add64, sub64}
use native.Mathlib.Nat.{mod-add-mod, mod-eq_of_lt}
use jellybean.Concurrency.Spsc.{SpscQueue, put_slot, try_push, try_pop, slot_of}
use jellybean.Concurrency.Spsc.Index.{slot_of-wrap, wrap-mod, mod-ne}

module _ {ℓ} {T : Type ℓ} (capacity : ℕ) where
  -- The objects in the slots from an index on, oldest first.
  abbrev pub Window : (ℕ → Option T) → ℕ → List T → Type ℓ
  Window buffer h [] = Unit
  Window buffer h (x ∷ xs) = (buffer (h % capacity) ≡ some x) × Window buffer (h + 1) xs

  -- The queue holds these items: they lie in the slots from `head_` on, and `tail_` is as many
  -- steps ahead, modulo the width of the indices.
  pub record Holds (q : SpscQueue T) (xs : List T) : Type ℓ where
    pub head_lt : q.head < 2 ^ 64
    pub tail_at : q.tail ≡ (q.head + length xs) % 2 ^ 64
    pub room : length xs ≤ capacity
    pub window : Window q.buffer q.head xs

  Window-mod :
      (buffer : ℕ → Option T) (h h' : ℕ) (xs : List T)
      → h % capacity ≡ h' % capacity
      → Window buffer h xs
      → Window buffer h' xs
  Window-mod buffer h h' [] e w = tt
  Window-mod buffer h h' (x ∷ xs) e w = (
    ap buffer (sym e) ∙ w.0,
    Window-mod buffer (h + 1) (h' + 1) xs
        (sym (mod-add-mod h capacity 1)
          ∙ ap (λ (t : ℕ). (t + 1) % capacity) e
          ∙ mod-add-mod h' capacity 1)
        w.1,
  )

  pub Window-put :
      (buffer : ℕ → Option T) (s : ℕ) (v : Option T) (h : ℕ) (xs : List T)
      → ((i : ℕ) → i < length xs → s ≢ (h + i) % capacity)
      → Window buffer h xs
      → Window (put_slot buffer s v) h xs
  Window-put buffer s v h [] off w = tt
  Window-put buffer s v h (x ∷ xs) off w = (
    ground (arith, w.0, off 0, ap (λ (t : ℕ). t % capacity) (let e : h + 0 ≡ h = omega arith in e)),
    Window-put buffer s v (h + 1) xs
        (λ i lt e.
          off (suc i) (omega arith)
            (e ∙ ap (λ (t : ℕ). t % capacity) (let e : h + 1 + i ≡ h + suc i = omega arith in e)))
        w.1,
  )

  pub Window-append :
      (buffer : ℕ → Option T) (h : ℕ) (xs : List T) (x : T)
      → buffer ((h + length xs) % capacity) ≡ some x
      → Window buffer h xs
      → Window buffer h (xs ++ (x ∷ []))
  Window-append buffer h [] x e w =
      (ap (λ (t : ℕ). buffer (t % capacity)) (let e : h ≡ h + 0 = omega arith in e) ∙ e, tt)
  Window-append buffer h (y ∷ ys) x e w = (
    w.0,
    Window-append buffer (h + 1) ys x
        (ap (λ (t : ℕ). buffer (t % capacity))
            (let e : h + 1 + length ys ≡ h + length (y ∷ ys) = omega arith in e)
          ∙ e)
        w.1,
  )

  abbrev after_pop : SpscQueue T → SpscQueue T
  after_pop q = record q {
    buffer = put_slot q.buffer (slot_of capacity q.head) none;
    head = add64 q.head 1;
  }

  module _ (ok : IsPowerOfTwo capacity) {q : SpscQueue T} where
    tail_slot :
        {xs : List T} → Holds q xs → slot_of capacity q.tail ≡ (q.head + length xs) % capacity
    tail_slot {xs} v =
        ap (slot_of capacity) v.tail_at ∙ slot_of-wrap capacity (q.head + length xs) ok

    head_slot : {xs : List T} → Holds q xs → slot_of capacity q.head ≡ q.head % capacity
    head_slot v =
        ap (slot_of capacity) (sym (mod-eq_of_lt v.head_lt)) ∙ slot_of-wrap capacity q.head ok

    pushed-Window :
        (xs : List T) (item : T)
        → Holds q xs
        → length xs < capacity
        → Window
            (put_slot q.buffer (slot_of capacity q.tail) (some item))
            q.head
            (xs ++ (item ∷ []))
    pushed-Window xs item v lt =
        Window-append (put_slot q.buffer (slot_of capacity q.tail) (some item)) q.head xs item
          (ground (arith, tail_slot v))
          (Window-put q.buffer (slot_of capacity q.tail) (some item) q.head xs
            (λ i below e. mod-ne capacity (q.head + i) (length xs - i) (omega arith) (omega arith) (
              sym e
              ∙ tail_slot v
              ∙ ap (λ (t : ℕ). t % capacity)
                  (let g : q.head + length xs ≡ q.head + i + (length xs - i) = omega arith in g)))
            v.window)

    fill : (xs : List T) → Holds q xs → sub64 (add64 q.tail 1) q.head ≡ length xs + 1
    fill xs v = omega (arith, v.tail_at, v.head_lt, v.room, ok.small)

    pushed :
        (xs : List T) (item : T)
        → Holds q xs
        → length xs < capacity
        → try_push capacity q item ≡ (
          true,
          record q {
            buffer = put_slot q.buffer (slot_of capacity q.tail) (some item);
            tail = add64 q.tail 1;
          },
        )
    unfolding try_push
    pushed xs item v lt = ground (arith, fill xs v)

    not_pushed :
        (xs : List T) (item : T)
        → Holds q xs
        → capacity ≤ length xs
        → try_push capacity q item ≡ (false, q)
    unfolding try_push
    not_pushed xs item v full = ground (arith, fill xs v)

    -- `try_push` succeeds exactly if the queue that the ring holds has room, and the ring holds then
    -- the item behind the others; if it fails the ring holds what it held.
    pub try_push_refines :
        (xs : List T) (item : T)
        → Holds q xs
        → ((try_push capacity q item).0 ≡ (Fifo.push capacity xs item).0)
          × Holds (try_push capacity q item).1 (Fifo.push capacity xs item).1
    try_push_refines xs item v = elim (Bool-cases (ltb (length xs) capacity)) [
      | inl fits ↦
          rw (fits, pushed xs item v (ltb→lt _ _ fits))
            (
              refl,
              record {
                head_lt = v.head_lt;
                tail_at = omega (arith, v.tail_at, length-append xs (item ∷ []));
                room = omega (arith, length-append xs (item ∷ []), ltb→lt _ _ fits);
                window = pushed-Window xs item v (ltb→lt _ _ fits);
              },
            )
      | inr full ↦ rw (full, not_pushed xs item v (ground arith)) (refl, v)
    ]

    nothing : Holds q [] → try_pop capacity q ≡ (none, q)
    unfolding try_pop
    nothing v = ground (arith, v.tail_at, v.head_lt)

    popped :
        (x : T) (rest : List T) → Holds q (x ∷ rest) → try_pop capacity q ≡ (some x, after_pop q)
    unfolding try_pop
    popped x rest h =
        ground (arith, h.tail_at, h.head_lt, h.room, ok.small, head_slot h, h.window.0)

    popped-Window :
        (x : T) (rest : List T)
        → Holds q (x ∷ rest)
        → Window (put_slot q.buffer (slot_of capacity q.head) none) (add64 q.head 1) rest
    popped-Window x rest h =
        Window-mod (put_slot q.buffer (slot_of capacity q.head) none) (q.head + 1) (add64 q.head 1)
          rest (sym (wrap-mod capacity (q.head + 1) ok))
          (Window-put q.buffer (slot_of capacity q.head) none (q.head + 1) rest
            (λ i below e. mod-ne capacity q.head (1 + i) (omega arith) (omega (arith, h.room)) (
              sym (head_slot h)
              ∙ e
              ∙ ap (λ (t : ℕ). t % capacity)
                  (let g : q.head + 1 + i ≡ q.head + (1 + i) = omega arith in g)))
            h.window.1)

    after_pop-Holds : (x : T) (rest : List T) → Holds q (x ∷ rest) → Holds (after_pop q) rest
    after_pop-Holds x rest h = record {
      head_lt = omega arith;
      tail_at = omega (arith, h.tail_at);
      room = omega (arith, h.room);
      window = popped-Window x rest h;
    }

    -- `try_pop` gives the oldest item that the ring holds, and the ring holds then the rest; of a
    -- ring that holds nothing it gives nothing, and the ring still holds nothing.
    pub try_pop_refines :
        (xs : List T)
        → Holds q xs
        → ((try_pop capacity q).0 ≡ (Fifo.pop xs).0) × Holds (try_pop capacity q).1 (Fifo.pop xs).1
    try_pop_refines [] v = rw (nothing v) (refl, v)
    try_pop_refines (x ∷ rest) v = rw (popped x rest v) (refl, after_pop-Holds x rest v)
