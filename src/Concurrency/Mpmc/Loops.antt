-- ===== src/Concurrency/Mpmc/Loops.antt =====
-- The loops of `emplace` and `try_pop` of src's MpmcQueue: what they return, and that they end.
use jellybean.Base.{
  ℕ, ◌+◌, ◌%◌, ◌≤◌, ◌<◌, ◌≡◌, refl, sym, ap, ◌∙◌, arith, Bool, true, false, Bool-cases, none, some,
  List, [], ◌∷◌, length, ltb, ltb→lt, if◌then◌else◌, inl, inr,
}
use jellybean.Concurrency.Fifo
use jellybean.Concurrency.Spsc.{slot_of}
use jellybean.Concurrency.Mpmc.{
  MpmcQueue, returns, retries, pushed, push_round, popped, pop_round, push_rounds, emplace_item,
  pop_rounds, pop_item,
}
use jellybean.Concurrency.Mpmc.Refine.{Swaps, Holds, tail_slot, pushed-Holds, popped-Holds}
use jellybean.Scheduler.Deque.Copy.{IsPow, mask-mod}
use native.Mathlib.Nat.{add-mod_right}

module _ {T : Type 0} (capacity : ℕ) (pow : IsPow capacity) (two : 2 ≤ capacity)
    {q : MpmcQueue T} where
  room_turn :
      (xs : List T)
      → Holds capacity q xs
      → length xs < capacity
      → q.sequence (slot_of capacity q.enqueue_pos) ≡ q.enqueue_pos
  room_turn xs v lt =
      ap q.sequence (tail_slot capacity pow two xs v)
      ∙ v.turns (length xs) lt
      ∙ ground (arith, v.ends)

  head_turn :
      (xs : List T)
      → Holds capacity q xs
      → q.sequence (slot_of capacity q.dequeue_pos)
        ≡ q.dequeue_pos + (if ltb 0 (length xs) then 1 else 0)
  head_turn xs v =
      ap q.sequence (
        mask-mod capacity q.dequeue_pos pow
        ∙ ap (λ (t : ℕ). t % capacity)
            (let g : q.dequeue_pos ≡ q.dequeue_pos + 0 = omega arith in g))
      ∙ v.turns 0 (omega (arith, two))
      ∙ ground arith

  full_turn :
      (xs : List T)
      → Holds capacity q xs
      → capacity ≤ length xs
      → q.sequence (slot_of capacity q.enqueue_pos) ≡ q.dequeue_pos + 1
  full_turn xs v full =
      ap q.sequence (
        tail_slot capacity pow two xs v
        ∙ ap (λ (t : ℕ). (q.dequeue_pos + t) % capacity)
            (let g : length xs ≡ capacity = omega (arith, v.room) in g)
        ∙ add-mod_right q.dequeue_pos capacity
        ∙ sym (mask-mod capacity q.dequeue_pos pow))
      ∙ head_turn xs v
      ∙ ground (arith, two)

  push_round-room :
      (xs : List T) (item : T) (swaps : Bool)
      → Holds capacity q xs
      → length xs < capacity
      → push_round capacity swaps q.enqueue_pos q item ≡ (
          if swaps
          then returns (true, pushed capacity q q.enqueue_pos item)
          else retries q.enqueue_pos)
  unfolding push_round
  push_round-room xs item true v lt = ground (arith, room_turn xs v lt)
  push_round-room xs item false v lt = ground (arith, room_turn xs v lt)

  push_round-full :
      (xs : List T) (item : T) (swaps : Bool)
      → Holds capacity q xs
      → capacity ≤ length xs
      → push_round capacity swaps q.enqueue_pos q item ≡ returns (false, q)
  unfolding push_round
  push_round-full xs item swaps v full = ground (arith, full_turn xs v full, v.ends, two)

  push_rounds-room :
      (xs : List T) (item : T) (ws : List Bool)
      → Holds capacity q xs
      → length xs < capacity
      → Swaps ws
      → push_rounds capacity ws q.enqueue_pos q item
        ≡ some (true, pushed capacity q q.enqueue_pos item)
  unfolding push_rounds
  push_rounds-room xs item [] v lt w = elim w [ ]
  push_rounds-room xs item (true ∷ more) v lt w =
      rw (push_round-room xs item true v lt, push_rounds) refl
  push_rounds-room xs item (false ∷ more) v lt w =
      rw (push_round-room xs item false v lt, push_rounds) (push_rounds-room xs item more v lt w)

  push_rounds-full :
      (xs : List T) (item : T) (ws : List Bool)
      → Holds capacity q xs
      → capacity ≤ length xs
      → Swaps ws
      → push_rounds capacity ws q.enqueue_pos q item ≡ some (false, q)
  unfolding push_rounds
  push_rounds-full xs item [] v full w = elim w [ ]
  push_rounds-full xs item (swaps ∷ more) v full w =
      rw (push_round-full xs item swaps v full, push_rounds) refl

  pop_round-some :
      (x : T) (rest : List T) (swaps : Bool)
      → Holds capacity q (x ∷ rest)
      → pop_round capacity swaps q.dequeue_pos q ≡ (
          if swaps
          then returns (some x, popped capacity q q.dequeue_pos)
          else retries q.dequeue_pos)
  unfolding pop_round
  pop_round-some x rest true v =
      ground (arith, head_turn (x ∷ rest) v, v.window.0, mask-mod capacity q.dequeue_pos pow)
  pop_round-some x rest false v = ground (arith, head_turn (x ∷ rest) v)

  pop_round-none :
      (swaps : Bool)
      → Holds capacity q []
      → pop_round capacity swaps q.dequeue_pos q ≡ returns (none, q)
  unfolding pop_round
  pop_round-none swaps v = ground (arith, head_turn [] v)

  pop_rounds-some :
      (x : T) (rest : List T) (ws : List Bool)
      → Holds capacity q (x ∷ rest)
      → Swaps ws
      → pop_rounds capacity ws q.dequeue_pos q ≡ some (some x, popped capacity q q.dequeue_pos)
  unfolding pop_rounds
  pop_rounds-some x rest [] v w = elim w [ ]
  pop_rounds-some x rest (true ∷ more) v w = rw (pop_round-some x rest true v, pop_rounds) refl
  pop_rounds-some x rest (false ∷ more) v w =
      rw (pop_round-some x rest false v, pop_rounds) (pop_rounds-some x rest more v w)

  pop_rounds-none :
      (ws : List Bool)
      → Holds capacity q []
      → Swaps ws
      → pop_rounds capacity ws q.dequeue_pos q ≡ some (none, q)
  unfolding pop_rounds
  pop_rounds-none [] v w = elim w [ ]
  pop_rounds-none (swaps ∷ more) v w = rw (pop_round-none swaps v, pop_rounds) refl

  -- If some CAS of a call does not fail for no reason, `emplace` ends: it succeeds exactly if the
  -- queue has room, and the queue holds then the item behind the others; if not it is left alone.
  pub emplace-Ends :
      (xs : List T) (item : T) (ws : List Bool)
      → Holds capacity q xs
      → Swaps ws
      → (q' : MpmcQueue T) × (emplace_item capacity ws q item
          ≡ some ((Fifo.push capacity xs item).0, q'))
        × Holds capacity q' (Fifo.push capacity xs item).1
  unfolding emplace_item
  emplace-Ends xs item ws v w = elim (Bool-cases (ltb (length xs) capacity)) [
    | inl fits ↦ rw fits (
      pushed capacity q q.enqueue_pos item,
      push_rounds-room xs item ws v (ltb→lt _ _ fits) w,
      pushed-Holds capacity pow two xs item v (ltb→lt _ _ fits),
    )
    | inr full ↦ rw full (q, push_rounds-full xs item ws v (ground (arith, full)) w, v)
  ]

  -- If some CAS of a call does not fail for no reason, `try_pop` ends: it gives the oldest item, and
  -- the queue holds the rest; if there is none it gives nothing.
  pub try_pop-Ends :
      (xs : List T) (ws : List Bool)
      → Holds capacity q xs
      → Swaps ws
      → (q' : MpmcQueue T) × (pop_item capacity ws q ≡ some ((Fifo.pop xs).0, q'))
        × Holds capacity q' (Fifo.pop xs).1
  unfolding pop_item
  try_pop-Ends [] ws v w = (q, pop_rounds-none ws v w, v)
  try_pop-Ends (x ∷ rest) ws v w = (
    popped capacity q q.dequeue_pos,
    pop_rounds-some x rest ws v w,
    popped-Holds capacity pow two x rest v,
  )
