-- ===== src/Actor/Message/Runs.antt =====
-- Programs on messages neither leak nor free twice, command by command.
use mathlib.Core.Path.{subst}
use jellybean.Base
use jellybean.Base.{
  ℕ, zero, suc, ◌+◌, ◌≤◌, ◌<◌, ◌≡◌, ◌≢◌, ◌⊎◌, inl, inr, refl, sym, ap, ◌∙◌, arith, Bool, true,
  false, Bool-cases, ℕ_discrete, Option, none, some, List, [], ◌∷◌, length, get_elem?,
  get_elem?-set_ne, ◌==◌, if◌then◌else◌,
}
use jellybean.Actor.Message.{Heap, Run, done, new_message, destroy, copy, move_from}
use jellybean.Actor.Message.Owned.{}
use jellybean.Actor.Message.Gains.{IsMalloc}
use jellybean.Actor.Message.Program.{
  Objects, and_then, Command, create, drop, copy_new, move_new, destroy_one, assign, assign_moved,
  set_value, copy_assign, move_assign, set, on_one, step, run,
}
use jellybean.Actor.Message.Safe.{
  IsHeap, IsSafe, on_one-IsSafe, unless-IsSafe, Swaps-IsSafe, owned, set-Swaps, move_assign-IsSafe,
  assign-IsSafe, drop-IsSafe, create-IsSafe, copy_new-IsSafe, move_new-IsHeap, destroy_one-IsSafe,
}

and_then-IsSafe :
    (r : Run Objects) (k : Objects → Heap → Run Objects)
    → IsSafe r
    → ((ms : Objects) (h : Heap) → IsHeap ms h → IsSafe (k ms h))
    → IsSafe (and_then r k)
and_then-IsSafe r k (inl stop) f = inl (ap (λ t. and_then t k) stop)
and_then-IsSafe r k (inr (ms, h, is_done, v)) f =
    subst IsSafe (sym (ap (λ t. and_then t k) is_done)) (f ms h v)

module _ (malloc : Heap → ℕ → Option ℕ) (ok : IsMalloc malloc) where
  step-IsSafe : (ms : Objects) (c : Command) (h : Heap) → IsHeap ms h → IsSafe (step malloc ms c h)
  unfolding step
  step-IsSafe ms create h v = inr (new_message ∷ ms, h, refl, create-IsSafe malloc ok ms h v)
  step-IsSafe ms drop h v = drop-IsSafe malloc ok ms h v
  step-IsSafe ms (copy_new i) h v =
      on_one-IsSafe ms (get_elem? ms i) h
        (λ m. and_then (copy malloc m h) (λ m' h'. done (m' ∷ ms) h')) v
        (λ m e. copy_new-IsSafe malloc ok ms h i m v e)
  step-IsSafe ms (move_new i) h v =
      on_one-IsSafe ms (get_elem? ms i) h
        (λ m. done ((move_from m).0 ∷ Base.set ms i (move_from m).1) h) v
        (λ m e. inr (
          (move_from m).0 ∷ Base.set ms i (move_from m).1,
          h,
          refl,
          move_new-IsHeap malloc ok ms h i m v e,
        ))
  step-IsSafe ms (destroy_one i) h v =
      on_one-IsSafe ms (get_elem? ms i) h
        (λ m. and_then (destroy m h) (λ m' h'. done (Base.set ms i m') h')) v
        (λ m e. destroy_one-IsSafe malloc ok ms h i m v e)
  step-IsSafe ms (assign i j) h v =
      on_one-IsSafe ms (get_elem? ms i) h
        (λ a. on_one ms (get_elem? ms j) h (λ b.
          if i == j
          then done ms h
          else and_then (copy_assign malloc a b h) (λ c h'. done (Base.set ms i c) h')))
        v
        (λ a e.
          on_one-IsSafe ms (get_elem? ms j) h
            (λ b.
              if i == j
              then done ms h
              else and_then (copy_assign malloc a b h) (λ c h'. done (Base.set ms i c) h'))
            v
            (λ b e'.
              unless-IsSafe i j (inr (ms, h, refl, v))
                (λ ne. assign-IsSafe malloc ok ms h i j a b v ne e e')))
  step-IsSafe ms (assign_moved i j) h v =
      on_one-IsSafe ms (get_elem? ms i) h
        (λ a. on_one ms (get_elem? ms j) h (λ b.
          if i == j
          then done ms h
          else and_then (move_assign malloc a b h)
              (λ c h'. done (Base.set (Base.set ms i c.0) j c.1) h')))
        v
        (λ a e.
          on_one-IsSafe ms (get_elem? ms j) h
            (λ b.
              if i == j
              then done ms h
              else and_then (move_assign malloc a b h)
                  (λ c h'. done (Base.set (Base.set ms i c.0) j c.1) h'))
            v
            (λ b e'.
              unless-IsSafe i j (inr (ms, h, refl, v))
                (λ ne. move_assign-IsSafe malloc ok ms h i j a b v ne e e')))
  step-IsSafe ms (set_value i val) h v =
      on_one-IsSafe ms (get_elem? ms i) h
        (λ a. and_then (set malloc a val h) (λ c h'. done (Base.set ms i c) h')) v
        (λ a e.
          Swaps-IsSafe ms h i a (set malloc a val h) v e
            (set-Swaps malloc ok a val h (owned ms h i a v e)))

  run_from-IsSafe :
      (ms : Objects) (cs : List Command) (h : Heap) → IsHeap ms h → IsSafe (run malloc ms cs h)
  unfolding run
  run_from-IsSafe ms [] h v = inr (ms, h, refl, v)
  run_from-IsSafe ms (c ∷ cs) h v =
      and_then-IsSafe (step malloc ms c h) (λ ms' h'. run malloc ms' cs h') (step-IsSafe ms c h v)
        (λ ms' h' v'. run_from-IsSafe ms' cs h' v')

  -- Whatever a program does with messages, from no messages and an empty heap: it is aborted for want
  -- of storage, or it ends without a second `free` and without an access to a freed block, and each
  -- block that is left is owned by exactly one message that lives.
  pub run-IsSafe : (cs : List Command) → IsSafe (run malloc [] cs (λ p. none))
  run-IsSafe cs = run_from-IsSafe [] cs (λ p. none) (record { bodies = tt; once = λ p. refl })
