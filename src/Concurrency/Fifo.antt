-- ===== src/Concurrency/Fifo.antt =====
-- What the rings promise: a FIFO of bounded size, oldest first.
use jellybean.Base.{
  ℕ, Bool, true, false, Option, none, some, List, [], ◌∷◌, ◌++◌, length, ltb, if◌then◌else◌,
}

module _ {ℓ} {T : Type ℓ} where
  abbrev pub push : ℕ → List T → T → Bool × List T
  push capacity xs item =
      if ltb (length xs) capacity then (true, xs ++ (item ∷ [])) else (false, xs)

  abbrev pub pop : List T → Option T × List T
  pop [] = (none, [])
  pop (x ∷ xs) = (some x, xs)
