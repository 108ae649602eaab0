-- ===== src/Actor/Message/Program.antt =====
-- Programs on messages: the lifetimes and the assignments of some objects. A call for an object that
-- is not there does nothing.
use jellybean.Base.{ℕ, Bool, Option, none, some, List, [], ◌∷◌, get_elem?, ◌==◌, if◌then◌else◌}
use jellybean.Base
use jellybean.Actor.Message.{
  Heap, Run, done, aborted, fault, Message, new_message, destroy, copy, set_payload, move_from,
}

-- The objects that live; the newest one stands in front.
abbrev pub Objects : Type 0
Objects = List Message

module _ {A B : Type 0} where
  abbrev pub and_then : Run A → (A → Heap → Run B) → Run B
  and_then (done a h) k = k a h
  and_then aborted k = aborted
  and_then fault k = fault

-- What a program does with its objects, by their numbers.
pub data Command : Type 0 where
  create drop : Command
  copy_new move_new destroy_one : ℕ → Command
  assign assign_moved : ℕ → ℕ → Command
  set_value : ℕ → List ℕ → Command

-- For the objects that a command names.
abbrev pub on_one : Objects → Option Message → Heap → (Message → Run Objects) → Run Objects
on_one ms none h k = done ms h
on_one ms (some m) h k = k m

module _ (malloc : Heap → ℕ → Option ℕ) where
  -- The copy assignment of another object.
  unfoldable pub copy_assign : Message → Message → Heap → Run Message
  unfolding destroy copy
  copy_assign self other h = and_then (destroy self h) (λ m h'. copy malloc other h')

  -- The move assignment of another object.
  unfoldable pub move_assign : Message → Message → Heap → Run (Message × Message)
  unfolding destroy move_from
  move_assign self other h = and_then (destroy self h) (λ m h'. done (move_from other) h')

  unfoldable pub set : Message → List ℕ → Heap → Run Message
  unfolding destroy set_payload
  set self val h = and_then (destroy self h) (λ m h'. set_payload malloc val m h')

  unfoldable pub step : Objects → Command → Heap → Run Objects
  unfolding copy_assign move_assign set destroy copy move_from
  step ms create h = done (new_message ∷ ms) h
  step [] drop h = done [] h
  step (m ∷ ms) drop h = and_then (destroy m h) (λ m' h'. done ms h')
  step ms (copy_new i) h =
      on_one ms (get_elem? ms i) h (λ m. and_then (copy malloc m h) (λ m' h'. done (m' ∷ ms) h'))
  step ms (move_new i) h =
      on_one ms (get_elem? ms i) h (λ m. done ((move_from m).0 ∷ Base.set ms i (move_from m).1) h)
  step ms (destroy_one i) h =
      on_one ms (get_elem? ms i) h
        (λ m. and_then (destroy m h) (λ m' h'. done (Base.set ms i m') h'))
  step ms (assign i j) h = on_one ms (get_elem? ms i) h (λ a. on_one ms (get_elem? ms j) h (λ b.
      if i == j
      then done ms h
      else and_then (copy_assign a b h) (λ c h'. done (Base.set ms i c) h')))
  step ms (assign_moved i j) h = on_one ms (get_elem? ms i) h (λ a.
      on_one ms (get_elem? ms j) h (λ b.
        if i == j
        then done ms h
        else and_then (move_assign a b h) (λ c h'. done (Base.set (Base.set ms i c.0) j c.1) h')))
  step ms (set_value i val) h =
      on_one ms (get_elem? ms i) h (λ a. and_then (set a val h) (λ c h'. done (Base.set ms i c) h'))

  unfoldable pub run : Objects → List Command → Heap → Run Objects
  unfolding step
  run ms [] h = done ms h
  run ms (c ∷ cs) h = and_then (step ms c h) (λ ms' h'. run ms' cs h')
