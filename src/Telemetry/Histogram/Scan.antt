-- ===== src/Telemetry/Histogram/Scan.antt =====
-- The two loops of `percentile` in src/telemetry/metrics.cpp.
use jellybean.Base.{ℕ, zero, suc, ◌+◌, ◌-◌, ◌^◌, ◌≤◌, ◌<◌, ◌≡◌, refl, ap, ◌∙◌, arith}
use jellybean.Base.{List, [], ◌∷◌, length, take, dec_le}
use jellybean.Base.Words.{u64, add64}
use jellybean.Telemetry.Histogram.{total_from, scan}
use jellybean.Telemetry.Histogram.Counts.{sum}

-- The bucket `n` is the first one with which `target` latencies are reached.
pub record IsFirst (counts : ℕ → ℕ) (target n : ℕ) : Type 0 where
  pub reaches : target ≤ counts n
  pub least : (m : ℕ) → m < n → counts m < target

pub total_from_lem :
    (total : ℕ) (h : List ℕ) → total + sum h < 2 ^ 64 → total_from total h ≡ total + sum h
unfolding total_from
total_from_lem total [] lt = omega arith
total_from_lem total (b ∷ bs) lt =
    ap (λ t. total_from t bs) wraps ∙ (total_from_lem (total + b) bs (omega arith) ∙ omega arith)
  where
    wraps : add64 total b ≡ total + b
    wraps = omega arith

scan-stop :
    (target i count b : ℕ) (bs : List ℕ)
    → count + b < 2 ^ 64
    → target ≤ count + b
    → scan target i count (b ∷ bs) ≡ u64 (2 ^ (i - 1))
unfolding scan
scan-stop target i count b bs lt le = ground arith

scan-go :
    (target i count b : ℕ) (bs : List ℕ)
    → count + b < 2 ^ 64
    → count + b < target
    → scan target i count (b ∷ bs) ≡ scan target (suc i) (count + b) bs
unfolding scan
scan-go target i count b bs lt short = goes ∙ ap (λ t. scan target (suc i) t bs) wraps
  where
    goes : scan target i count (b ∷ bs) ≡ scan target (suc i) (add64 count b) bs
    goes = ground arith

    wraps : add64 count b ≡ count + b
    wraps = omega arith

-- The counts that the second loop goes through.
abbrev pub counts_from : ℕ → List ℕ → ℕ → ℕ
counts_from count h m = count + sum (take (suc m) h)

abbrev pub Stops : ℕ → ℕ → ℕ → List ℕ → Type 0
Stops target i count h =
    (n : ℕ) × (n < length h)
    × IsFirst (counts_from count h) target n
    × (scan target i count h ≡ u64 (2 ^ (i + n - 1)))

Stops-here :
    (target i count b : ℕ) (bs : List ℕ)
    → count + b < 2 ^ 64
    → target ≤ count + b
    → Stops target i count (b ∷ bs)
Stops-here target i count b bs lt le = (
  0,
  omega arith,
  record { reaches = omega arith; least = λ m h. absurd (omega arith) },
  scan-stop target i count b bs lt le ∙ ap (λ t. u64 (2 ^ t)) (omega arith),
)

Stops-later :
    (target i count b : ℕ) (bs : List ℕ)
    → count + b < 2 ^ 64
    → count + b < target
    → Stops target (suc i) (count + b) bs
    → Stops target i count (b ∷ bs)
Stops-later target i count b bs lt short (n, inside, first, e) = (
  suc n,
  omega arith,
  record { reaches = omega (arith, first.reaches); least = earlier },
  scan-go target i count b bs lt short ∙ (e ∙ ap (λ t. u64 (2 ^ t)) (omega arith)),
)
  where
    earlier : (m : ℕ) → m < suc n → counts_from count (b ∷ bs) m < target
    earlier zero h = omega arith
    earlier (suc m) h = omega (arith, first.least m (omega arith))

-- The second loop stops at the first bucket with which the target is reached.
pub scan-Stops :
    (target i count b : ℕ) (bs : List ℕ)
    → count + sum (b ∷ bs) < 2 ^ 64
    → target ≤ count + sum (b ∷ bs)
    → Stops target i count (b ∷ bs)
scan-Stops target i count b [] lt le = Stops-here target i count b [] (omega arith) (omega arith)
scan-Stops target i count b (c ∷ cs) lt le = elim (dec_le target (count + b)) [
  | yes enough ↦ Stops-here target i count b (c ∷ cs) (omega arith) enough
  | no short ↦
      Stops-later target i count b (c ∷ cs) (omega arith) (omega arith)
        (scan-Stops target (suc i) (count + b) c cs (omega arith) (omega arith))
]

pub take-all : (h : List ℕ) (n : ℕ) → length h ≡ n → take n h ≡ h
take-all [] zero e = refl
take-all [] (suc n) e = refl
take-all (b ∷ bs) zero e = absurd (omega arith)
take-all (b ∷ bs) (suc n) e = ap (λ t. b ∷ t) (take-all bs n (omega arith))
