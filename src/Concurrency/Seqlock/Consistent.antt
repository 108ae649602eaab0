-- ===== src/Concurrency/Seqlock/Consistent.antt =====
-- Writers exclude each other, and a read that passes its test is consistent.
use jellybean.Base.{
  ℕ, ◌+◌, ◌%◌, ◌≤◌, ◌<◌, ◌≡◌, ◌≢◌, ◌⊎◌, inl, inr, refl, ap, arith, true, Option, none, some, List,
  [], ◌∷◌, ◌++◌, length, length-append, bit_and,
}
use mathlib.Core.Path.{subst}
use jellybean.Base.Bits.{bit_and_mask}
use jellybean.Concurrency.Seqlock.{
  write_round, write_end, read_round, read_end, Reader, System, put_cell, initial, Step, enter,
  write_cell, leave, begin, read_cell, finish, Reach, here, then_step,
}

odd_bit : (s : ℕ) → bit_and s 1 ≡ s % 2
odd_bit s = bit_and_mask 1 s

write_round-found :
    (seq found next : ℕ)
    → write_round seq ≡ some (found, next)
    → (found ≡ seq) × (next ≡ seq + 1) × (seq % 2 ≡ 0)
unfolding write_round
write_round-found seq found next h = ground (arith, odd_bit seq)

read_round-found : (seq found : ℕ) → read_round seq ≡ some found → (found ≡ seq) × (seq % 2 ≡ 0)
unfolding read_round
read_round-found seq found h = ground (arith, odd_bit seq)

read_end-same : (seq found : ℕ) → read_end seq found ≡ true → seq ≡ found
unfolding read_end
read_end-same seq found h = ground arith

write_end-eq : (s : ℕ) → write_end s ≡ s + 2
unfolding write_end
write_end-eq s = refl

-- A list with an item of its own is not empty, and of one item it is only that one.
only :
    (before after xs : List ℕ) (x : ℕ)
    → xs ≡ before ++ (x ∷ after)
    → (xs ≢ []) × ((y : ℕ) → xs ≡ y ∷ [] → (x ≡ y) × (before ++ after ≡ []))
only [] after xs x h = (λ e. cc, λ y e. (cc, cc))
only (b ∷ bs) after xs x h =
    (λ e. cc, λ y e. absurd (omega (arith, length-append bs (x ∷ after), ap length h, ap length e)))

module _ {T : Type 0} where
  -- What was seen is what the cells hold.
  abbrev pub AllSeen : (ℕ → T) → List (ℕ × T) → Type 0
  AllSeen cells [] = Unit
  AllSeen cells ((i, v) ∷ rest) = (v ≡ cells i) × AllSeen cells rest

  abbrev ReaderIsValid : System T → Option (Reader T) → Type 0
  ReaderIsValid s none = Unit
  ReaderIsValid s (some r) =
      (r.started % 2 ≡ 0) × (r.started ≤ s.seq) × (s.seq ≡ r.started → AllSeen s.cells r.seen)

  -- The counter is even and no writer is in its callback, or it is odd and one writer is, which has
  -- found the number before.
  abbrev pub WritersExclude : System T → Type 0
  WritersExclude s =
      ((s.seq % 2 ≡ 0) × (s.writing ≡ []))
      ⊎ ((found : ℕ) × (found % 2 ≡ 0) × (s.seq ≡ found + 1) × (s.writing ≡ found ∷ []))

  pub record IsValid (s : System T) : Type 0 where
    pub writers : WritersExclude s
    pub reads : ReaderIsValid s s.reader

  stale :
      (s s' : System T) (o : Option (Reader T))
      → s.seq < s'.seq
      → ReaderIsValid s o
      → ReaderIsValid s' o
  stale s s' none lt v = tt
  stale s s' (some r) lt v = (v.0, omega (arith, v.1), λ e. absurd (omega (arith, v.1, e)))

  inside :
      (s : System T) (before after : List ℕ) (found : ℕ)
      → WritersExclude s
      → s.writing ≡ before ++ (found ∷ after)
      → (found % 2 ≡ 0) × (s.seq ≡ found + 1) × (before ++ after ≡ [])
  inside s before after found (inl (even, none_in)) h =
      absurd ((only before after s.writing found h).0 none_in)
  inside s before after found (inr (f, even, at, one)) h =
      let (same, rest) = (only before after s.writing found h).1 f one in
      (omega (arith, same, even), omega (arith, same, at), rest)

  idle : (s : System T) → WritersExclude s → s.seq % 2 ≡ 0 → s.writing ≡ []
  idle s (inl (even, none_in)) e = none_in
  idle s (inr (f, even, at, one)) e = absurd (omega (arith, even, at, e))

  read-kept :
      (s s' : System T) (o : Option (Reader T))
      → s'.seq ≡ s.seq
      → s.seq % 2 ≡ 1
      → ReaderIsValid s o
      → ReaderIsValid s' o
  read-kept s s' none e odd v = tt
  read-kept s s' (some r) e odd v =
      (v.0, omega (arith, e, v.1), λ e'. absurd (omega (arith, e, e', odd, v.0)))

  Step-IsValid : {s s' : System T} → Step s s' → IsValid s → IsValid s'
  Step-IsValid (enter s found next h) v =
      let (same, up, even) = write_round-found s.seq found next h in
      record {
        writers = inr (
          found,
          omega (arith, same, even),
          omega (arith, same, up),
          ap (λ l. found ∷ l) (idle s v.writers even),
        );
        reads =
            stale s (record s { seq = next; writing = found ∷ s.writing }) s.reader
              (omega (arith, up)) v.reads;
      }
  Step-IsValid (write_cell s before after found i x h) v =
      let (even, at, rest) = inside s before after found v.writers h in
      record {
        writers = v.writers;
        reads =
            read-kept s (record s { cells = put_cell s.cells i x }) s.reader refl
              (omega (arith, even, at)) v.reads;
      }
  Step-IsValid (leave s before after found h) v =
      let (even, at, rest) = inside s before after found v.writers h in
      record {
        writers = inl (omega (arith, even, write_end-eq found), rest);
        reads =
            stale s (record s { seq = write_end found; writing = before ++ after }) s.reader
              (omega (arith, at, write_end-eq found)) v.reads;
      }
  Step-IsValid (begin s found h) v =
      let (same, even) = read_round-found s.seq found h in
      record {
        writers = v.writers;
        reads = (omega (arith, same, even), omega (arith, same), λ e. tt);
      }
  Step-IsValid (read_cell s r i h) v =
      let r_valid = subst (ReaderIsValid s) h v.reads in
      record { writers = v.writers; reads = (r_valid.0, r_valid.1, λ e. (refl, r_valid.2 e)) }
  Step-IsValid (finish s) v = record { writers = v.writers; reads = tt }

  initial-IsValid : (cells : ℕ → T) → IsValid (initial cells)
  initial-IsValid cells = record { writers = inl (refl, refl); reads = tt }

  Reach-IsValid : (cells : ℕ → T) {s : System T} → Reach (initial cells) s → IsValid s
  Reach-IsValid cells here = initial-IsValid cells
  Reach-IsValid cells (then_step r st) = Step-IsValid st (Reach-IsValid cells r)

  -- Whatever writers and readers have done, at most one writer is in its callback.
  Reach-WritersExclude : (cells : ℕ → T) {s : System T} → Reach (initial cells) s → WritersExclude s
  Reach-WritersExclude cells r = (Reach-IsValid cells r).writers

  -- Whatever writers and readers have done: if a read passes its test, then no writer is in its
  -- callback, and all that the read has seen is what the cells hold at that moment.
  pub read_end-AllSeen :
      (cells : ℕ → T) (r : Reader T) {s : System T}
      → Reach (initial cells) s
      → s.reader ≡ some r
      → read_end s.seq r.started ≡ true
      → (s.writing ≡ []) × AllSeen s.cells r.seen
  read_end-AllSeen cells r {s} reach h passes =
      let v = Reach-IsValid cells reach in
      let r_valid = subst (ReaderIsValid s) h v.reads in
      let same = read_end-same s.seq r.started passes in
      (idle s v.writers (omega (arith, same, r_valid.0)), r_valid.2 same)
