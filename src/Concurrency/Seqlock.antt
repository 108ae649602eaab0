-- ===== src/Concurrency/Seqlock.antt =====
-- `Seqlock` of include/jellybean/concurrency/seqlock.hpp: the rounds of its two loops, and writers and
-- a reader that run them in any order. The counter is a natural number: no reader is overtaken by
-- 2^63 writes. The data are cells, which the callbacks write and read one at a time.
pub mod Consistent
use jellybean.Base.{
  ℕ, ◌+◌, ◌≡◌, Bool, true, false, Option, none, some, List, [], ◌∷◌, ◌++◌, bit_and, ◌==◌,
  if◌then◌else◌,
}

-- A round of `write` up to its callback: the counter that the CAS has found, and the new counter.
unfoldable pub write_round : ℕ → Option (ℕ × ℕ)
write_round seq = if bit_and seq 1 == 1 then none else some (seq, seq + 1)

-- The store behind the callback.
unfoldable pub write_end : ℕ → ℕ
write_end s = s + 2

-- A round of `read` up to its callback.
unfoldable pub read_round : ℕ → Option ℕ
read_round seq = if bit_and seq 1 == 1 then none else some seq

-- The test behind the callback.
unfoldable pub read_end : ℕ → ℕ → Bool
read_end seq s = seq == s

-- What a reader has: the counter that it started with, and the cells that its callback has read.
pub record Reader {ℓ} (T : Type ℓ) : Type ℓ where
  pub started : ℕ
  pub seen : List (ℕ × T)

-- The lock with its data, the writers in their callbacks, each with the counter that it has found, and
-- a reader in its callback. Readers write nothing, so that one stands for each of them.
pub record System {ℓ} (T : Type ℓ) : Type ℓ where
  pub seq : ℕ
  pub cells : ℕ → T
  pub writing : List ℕ
  pub reader : Option (Reader T)

abbrev pub put_cell {ℓ} : {T : Type ℓ} → (ℕ → T) → ℕ → T → ℕ → T
put_cell cells i v j = if i == j then v else cells j

module _ {ℓ} {T : Type ℓ} where
  abbrev pub initial : (ℕ → T) → System T
  initial cells = record { seq = 0; cells = cells; writing = []; reader = none }

  pub data Step : System T → System T → Type ℓ where
    enter :
        (s : System T) (found next : ℕ)
        → write_round s.seq ≡ some (found, next)
        → Step s (record s { seq = next; writing = found ∷ s.writing })
    write_cell :
        (s : System T) (before after : List ℕ) (found i : ℕ) (v : T)
        → s.writing ≡ before ++ (found ∷ after)
        → Step s (record s { cells = put_cell s.cells i v })
    leave :
        (s : System T) (before after : List ℕ) (found : ℕ)
        → s.writing ≡ before ++ (found ∷ after)
        → Step s (record s { seq = write_end found; writing = before ++ after })
    begin :
        (s : System T) (found : ℕ)
        → read_round s.seq ≡ some found
        → Step s (record s { reader = some (record { started = found; seen = [] }) })
    read_cell :
        (s : System T) (r : Reader T) (i : ℕ)
        → s.reader ≡ some r
        → Step s (record s { reader = some (record r { seen = (i, s.cells i) ∷ r.seen }) })
    finish : (s : System T) → Step s (record s { reader = none })

  pub data Reach (s : System T) : System T → Type ℓ where
    here : Reach s s
    then_step : {t u : System T} → Reach s t → Step t u → Reach s u
