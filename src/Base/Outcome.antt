-- ===== src/Base/Outcome.antt =====
-- Results of code that may throw.
use mathlib.Core.List.{List, [], ◌∷◌}

pub data Exception : Type 0 where
  invalid_argument out_of_range : Exception

pub data Outcome {ℓ} (A : Type ℓ) : Type ℓ where
  ok : A → Outcome A
  throws : Exception → Outcome A

infixl 5 ◌>>=◌
abbrev pub ◌>>=◌ {ℓ κ} : {A : Type ℓ} {B : Type κ} → Outcome A → (A → Outcome B) → Outcome B
ok a >>= f = f a
throws e >>= f = throws e

-- A loop whose rounds may throw.
abbrev pub fold_outcome {ℓ κ} :
    {A : Type ℓ} {B : Type κ} → (B → A → Outcome B) → B → List A → Outcome B
fold_outcome f b [] = ok b
fold_outcome f b (x ∷ xs) = do b' ← f b x; fold_outcome f b' xs
