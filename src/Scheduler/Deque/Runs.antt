-- ===== src/Scheduler/Deque/Runs.antt =====
-- Runs of calls of a deque, against the list of its items.
use jellybean.Base.{ℕ, ◌^◌, ◌≡◌, refl, ap, ◌∙◌, arith, Option, none, List, [], ◌∷◌, ◌++◌}
use jellybean.Concurrency.Fifo
use jellybean.Scheduler.Deque.{WorkStealingDeque, make_deque, push, pop, steal}
use jellybean.Scheduler.Deque.Refine.{
  take_last, Holds, Refines, push_refines, pop-Refines, steal-Refines,
}

-- Calls of a deque, and what they answer: `none` for a push.
pub data Call {ℓ} (T : Type ℓ) : Type ℓ where
  push_item : T → Call T
  pop_item steal_item : Call T

module _ {ℓ} {T : Type ℓ} where
  unfoldable pub call : WorkStealingDeque T → Call T → Option T × WorkStealingDeque T
  unfolding push pop steal
  call d (push_item x) = (none, push d x)
  call d pop_item = pop d
  call d steal_item = steal d

  unfoldable pub answers : WorkStealingDeque T → List (Call T) → List (Option T)
  unfolding call
  answers d [] = []
  answers d (c ∷ cs) = (call d c).0 ∷ answers (call d c).1 cs

  abbrev pub list_call : List T → Call T → Option T × List T
  list_call xs (push_item x) = (none, xs ++ (x ∷ []))
  list_call xs pop_item = take_last xs
  list_call xs steal_item = Fifo.pop xs

  abbrev pub list_answers : List T → List (Call T) → List (Option T)
  list_answers xs [] = []
  list_answers xs (c ∷ cs) = (list_call xs c).0 ∷ list_answers (list_call xs c).1 cs

  call-Refines :
      (d : WorkStealingDeque T) (xs : List T) (c : Call T)
      → Holds d xs
      → Refines (call d c) (list_call xs c)
  unfolding call
  call-Refines d xs (push_item x) v = (refl, push_refines d xs x v)
  call-Refines d xs pop_item v = pop-Refines d xs v
  call-Refines d xs steal_item v = steal-Refines d xs v

  answers_refine :
      (d : WorkStealingDeque T) (xs : List T) (cs : List (Call T))
      → Holds d xs
      → answers d cs ≡ list_answers xs cs
  unfolding answers
  answers_refine d xs [] v = refl
  answers_refine d xs (c ∷ cs) v =
      let (same, held) = call-Refines d xs c v in
      ap (λ o. o ∷ answers (call d c).1 cs) same
      ∙ ap (λ l. (list_call xs c).0 ∷ l) (answers_refine (call d c).1 (list_call xs c).1 cs held)

  -- Whatever calls a new deque gets one after the other, it answers as a list does that is pushed and
  -- popped at one end and stolen from at the other, however often its array is doubled.
  pub answers-make_deque :
      (k : ℕ) (cs : List (Call T)) → answers (make_deque (2 ^ k)) cs ≡ list_answers [] cs
  answers-make_deque k cs =
      answers_refine (make_deque (2 ^ k)) [] cs
        (record { pow = (k, refl); ends = refl; room = omega arith; window = tt })
