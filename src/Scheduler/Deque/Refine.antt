-- ===== src/Scheduler/Deque/Refine.antt =====
-- The deque against the list of its items, oldest first: the owner's end is the list's end.
use jellybean.Base.{
  ℕ, suc, ◌+◌, ◌-◌, ◌*◌, ◌%◌, ◌≤◌, ◌<◌, ◌≡◌, refl, sym, ap, ◌∙◌, arith, Bool-cases, Option, none,
  some, List, [], ◌∷◌, ◌++◌, length, length-append, ltb, inl, inr, true, false, if◌then◌else◌, ◌==◌,
}
use mathlib.Core.Path.{subst}
use jellybean.Concurrency.Fifo
use jellybean.Concurrency.Spsc.{put_slot}
use jellybean.Concurrency.Spsc.Index.{mod-ne}
use jellybean.Concurrency.Spsc.Refine.{Window, Window-put, Window-append}
use jellybean.Scheduler.Deque.{
  WorkStealingDeque, mask, new_array, load_item, resize, put_bottom, push, pop, steal,
}
use jellybean.Scheduler.Deque.Copy.{
  IsPow, IsPow-pos, IsPow-double, mask-mod, copy_items-capacity, copy_items-Window,
}

module _ {ℓ} {T : Type ℓ} where
  -- Taking from the end of a list.
  abbrev pub take_last : List T → Option T × List T
  take_last [] = (none, [])
  take_last (x ∷ []) = (some x, [])
  take_last (x ∷ y ∷ ys) = ((take_last (y ∷ ys)).0, x ∷ (take_last (y ∷ ys)).1)

  -- The deque holds these items: they lie from `top` on and end at `bottom`.
  pub record Holds (d : WorkStealingDeque T) (xs : List T) : Type ℓ where
    pub pow : IsPow d.array.capacity
    pub ends : d.bottom ≡ d.top + length xs
    pub room : length xs ≤ d.array.capacity
    pub window : Window d.array.capacity d.array.storage d.top xs

  fill : (d : WorkStealingDeque T) (xs : List T) → Holds d xs → d.bottom - d.top ≡ length xs
  fill d xs v = omega (arith, v.ends)

  resize-Holds :
      (d : WorkStealingDeque T) (xs : List T)
      → Holds d xs
      → Holds (resize d) xs × (length xs < (resize d).array.capacity)
  unfolding resize
  resize-Holds d xs v =
      let wide =
        copy_items-capacity (d.bottom - d.top) d.top d.array (new_array (d.array.capacity * 2)) in
      (
        record {
          pow = subst IsPow (sym wide) (IsPow-double d.array.capacity v.pow);
          ends = v.ends;
          room = omega (arith, wide, v.room);
          window =
              rw (wide, fill d xs v)
                (copy_items-Window xs d.top d.array (new_array (d.array.capacity * 2)) v.pow
                  (IsPow-double d.array.capacity v.pow) (omega (arith, v.room)) v.window);
        },
        omega (arith, wide, v.room, IsPow-pos d.array.capacity v.pow),
      )

  put_bottom-Holds :
      (d : WorkStealingDeque T) (xs : List T) (x : T)
      → Holds d xs
      → length xs < d.array.capacity
      → Holds (put_bottom d x) (xs ++ (x ∷ []))
  put_bottom-Holds d xs x v lt = record {
    pow = v.pow;
    ends = omega (arith, v.ends, length-append xs (x ∷ []));
    room = omega (arith, length-append xs (x ∷ []));
    window =
        Window-append d.array.capacity
          (put_slot d.array.storage (mask d.array.capacity d.bottom) (some x)) d.top xs x
          (ground (arith, slot))
          (Window-put d.array.capacity d.array.storage (mask d.array.capacity d.bottom) (some x)
            d.top xs
            (λ i below e.
              mod-ne d.array.capacity (d.top + i) (length xs - i) (omega arith) (omega arith) (
                sym e
                ∙ slot
                ∙ ap (λ (t : ℕ). t % d.array.capacity)
                    (let g : d.top + length xs ≡ d.top + i + (length xs - i) = omega arith in g)))
            v.window);
  }
    where
      slot : mask d.array.capacity d.bottom ≡ (d.top + length xs) % d.array.capacity
      slot = mask-mod d.array.capacity d.bottom v.pow ∙ ap (λ (t : ℕ). t % d.array.capacity) v.ends

  -- `push` puts the item behind all others, and makes room for it first if there is none.
  pub push_refines :
      (d : WorkStealingDeque T) (xs : List T) (x : T)
      → Holds d xs
      → Holds (push d x) (xs ++ (x ∷ []))
  unfolding push
  push_refines d xs x v = elim (Bool-cases (ltb (d.array.capacity - 1) (d.bottom - d.top))) [
    | inl full ↦
        let (held, room) = resize-Holds d xs v in
        rw full (put_bottom-Holds (resize d) xs x held room)
    | inr fits ↦ rw fits (
        put_bottom-Holds d xs x v
          (ground (arith, fits, fill d xs v, IsPow-pos d.array.capacity v.pow)))
  ]

  -- The last item of a window, and the window of the others.
  pub Window-last :
      (c h : ℕ) (buffer : ℕ → Option T) (x : T) (xs : List T)
      → Window c buffer h (x ∷ xs)
      → (buffer ((h + length xs) % c) ≡ (take_last (x ∷ xs)).0)
        × Window c buffer h (take_last (x ∷ xs)).1
        × (length (take_last (x ∷ xs)).1 ≡ length xs)
  Window-last c h buffer x [] w =
      (ap (λ (t : ℕ). buffer (t % c)) (let g : h + 0 ≡ h = omega arith in g) ∙ w.0, tt, refl)
  Window-last c h buffer x (y ∷ ys) w =
      let (last, rest, n) = Window-last c (h + 1) buffer y ys w.1 in
      (
        ap (λ (t : ℕ). buffer (t % c))
              (let g : h + length (y ∷ ys) ≡ h + 1 + length ys = omega arith in g)
            ∙ last,
        (w.0, rest),
        omega (arith, n),
      )

  abbrev pub Refines : Option T × WorkStealingDeque T → Option T × List T → Type ℓ
  Refines r s = (r.0 ≡ s.0) × Holds r.1 s.1

  abbrev popped : WorkStealingDeque T → WorkStealingDeque T
  popped d =
      if d.top == d.bottom - 1
      then record d { top = d.top + 1; bottom = d.bottom - 1 + 1 }
      else record d { bottom = d.bottom - 1 }

  pop-some :
      (d : WorkStealingDeque T)
      → d.top < d.bottom
      → pop d ≡ (load_item d.array (d.bottom - 1), popped d)
  unfolding pop
  pop-some d lt = ground arith

  Window-none :
      (c h : ℕ) (buffer : ℕ → Option T) (xs : List T) → length xs ≡ 0 → Window c buffer h xs
  Window-none c h buffer [] e = tt
  Window-none c h buffer (x ∷ xs) e = absurd (omega (arith, e))

  popped-Holds :
      (d : WorkStealingDeque T) (xs rest : List T) (n : ℕ)
      → Holds d xs
      → length xs ≡ suc n
      → length rest ≡ n
      → Window d.array.capacity d.array.storage d.top rest
      → Holds (popped d) rest
  popped-Holds d xs rest n v e e' w = elim (Bool-cases (d.top == d.bottom - 1)) [
    | inl only ↦ rw only (record {
      pow = v.pow;
      ends = ground (arith, only, v.ends);
      room = omega (arith, v.room);
      window =
          Window-none d.array.capacity (d.top + 1) d.array.storage rest
            (ground (arith, only, v.ends));
    })
    | inr more ↦ rw more (record {
      pow = v.pow;
      ends = omega (arith, v.ends);
      room = omega (arith, v.room);
      window = w;
    })
  ]

  -- `pop` takes the item that was pushed last.
  pub pop-Refines :
      (d : WorkStealingDeque T) (xs : List T) → Holds d xs → Refines (pop d) (take_last xs)
  unfolding pop
  pop-Refines d [] v =
      rw (let e : ltb d.top d.bottom ≡ false = ground (arith, v.ends) in e) (refl, v)
  pop-Refines d (x ∷ xs) v =
      let (last, rest, n) = Window-last d.array.capacity d.top d.array.storage x xs v.window in
      subst (λ r. Refines r (take_last (x ∷ xs))) (sym (pop-some d (omega (arith, v.ends))))
        (
          ap d.array.storage (
                mask-mod d.array.capacity (d.bottom - 1) v.pow
                ∙ ap (λ (t : ℕ). t % d.array.capacity)
                    (let e : d.bottom - 1 ≡ d.top + length xs = omega (arith, v.ends) in e))
              ∙ last,
          popped-Holds d (x ∷ xs) (take_last (x ∷ xs)).1 (length xs) v refl n rest,
        )

  -- `steal` takes the item that was pushed first.
  pub steal-Refines :
      (d : WorkStealingDeque T) (xs : List T) → Holds d xs → Refines (steal d) (Fifo.pop xs)
  unfolding steal
  steal-Refines d [] v =
      rw (let e : ltb d.top d.bottom ≡ false = ground (arith, v.ends) in e) (refl, v)
  steal-Refines d (x ∷ xs) v =
      rw (let e : ltb d.top d.bottom ≡ true = ground (arith, v.ends) in e) (
        ap d.array.storage (mask-mod d.array.capacity d.top v.pow) ∙ v.window.0,
        record {
          pow = v.pow;
          ends = omega (arith, v.ends);
          room = omega (arith, v.room);
          window = v.window.1;
        },
      )
