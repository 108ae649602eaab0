-- ===== src/Base/Memory.antt =====
-- `std::memcpy` into a buffer: bytes written over those that stand there.
use Prim.Native.Nat.{ℕ, zero, suc, ◌+◌, ◌≤◌}
use mathlib.Core.Path.{◌≡◌, refl, sym, ap, ◌∙◌}
use mathlib.Core.List.{List, [], ◌∷◌, ◌++◌}
use native.Mathlib.Omega.{arith}
use jellybean.Base.Lists.{length, set, take, drop}

module _ {ℓ} {A : Type ℓ} where
  -- A write past the end of the buffer is lost: the lemmas below ask for room.
  abbrev pub overwrite : List A → List A → List A
  overwrite [] buf = buf
  overwrite (b ∷ bs) [] = []
  overwrite (b ∷ bs) (x ∷ xs) = b ∷ overwrite bs xs

  abbrev pub copy_at : ℕ → List A → List A → List A
  copy_at zero bytes buf = overwrite bytes buf
  copy_at (suc off) bytes [] = []
  copy_at (suc off) bytes (x ∷ xs) = x ∷ copy_at off bytes xs

  overwrite_lem :
      (bytes buf : List A)
      → length bytes ≤ length buf
      → overwrite bytes buf ≡ bytes ++ drop (length bytes) buf
  overwrite_lem [] buf h = refl
  overwrite_lem (b ∷ bs) [] h = absurd (omega arith)
  overwrite_lem (b ∷ bs) (x ∷ xs) h = ap (λ t. b ∷ t) (overwrite_lem bs xs (omega arith))

  -- The bytes behind a prefix are replaced, and what follows them is kept.
  pub copy_at-append :
      (pre bytes rest : List A)
      → length bytes ≤ length rest
      → copy_at (length pre) bytes (pre ++ rest) ≡ pre ++ (bytes ++ drop (length bytes) rest)
  copy_at-append [] bytes rest h = overwrite_lem bytes rest h
  copy_at-append (p ∷ ps) bytes rest h = ap (λ t. p ∷ t) (copy_at-append ps bytes rest h)

  pub take-append_length : (xs ys : List A) → take (length xs) (xs ++ ys) ≡ xs
  take-append_length [] ys = refl
  take-append_length (x ∷ xs) ys = ap (λ t. x ∷ t) (take-append_length xs ys)

  pub drop-append_length : (xs ys : List A) → drop (length xs) (xs ++ ys) ≡ ys
  drop-append_length [] ys = refl
  drop-append_length (x ∷ xs) ys = drop-append_length xs ys

  -- A byte behind a prefix, set anew.
  pub set-append_length :
      (xs : List A) (a b : A) (ys : List A) → set (xs ++ (a ∷ ys)) (length xs) b ≡ xs ++ (b ∷ ys)
  set-append_length [] a b ys = refl
  set-append_length (x ∷ xs) a b ys = ap (λ t. x ∷ t) (set-append_length xs a b ys)

  drop-nil : (n : ℕ) → drop {A = A} n [] ≡ []
  drop-nil zero = refl
  drop-nil (suc n) = refl

  pub drop-drop : (m n : ℕ) (xs : List A) → drop n (drop m xs) ≡ drop (m + n) xs
  drop-drop zero n xs = ap (λ k. drop k xs) (omega arith)
  drop-drop (suc m) n [] = drop-nil n ∙ sym (drop-nil (suc m + n))
  drop-drop (suc m) n (x ∷ xs) = drop-drop m n xs ∙ ap (λ k. drop k (x ∷ xs)) shift
    where
      shift : suc (m + n) ≡ suc m + n
      shift = omega arith
