-- ===== src/Base/Words.antt =====
-- Unsigned machine words as native numbers: sums and differences wrap at the width of the word.
use Prim.Native.Nat.{ℕ, zero, suc, ◌+◌, ◌-◌, ◌*◌, ◌/◌, ◌%◌, ◌^◌, ◌<◌}
use mathlib.Core.Path.{◌≡◌, refl, ap, ap₂, ◌∙◌}
use mathlib.Core.List.{List, [], ◌∷◌, ◌++◌}
use native.Mathlib.Omega.{arith}
use native.Mathlib.Nat.{pow-suc}
use jellybean.Base.Lists.{length}

abbrev pub u8 : ℕ → ℕ
u8 n = n % 2 ^ 8

abbrev pub u32 : ℕ → ℕ
u32 n = n % 2 ^ 32

abbrev pub u64 : ℕ → ℕ
u64 n = n % 2 ^ 64

abbrev pub not32 : ℕ → ℕ
not32 n = 2 ^ 32 - 1 - u32 n

abbrev pub not64 : ℕ → ℕ
not64 n = 2 ^ 64 - 1 - u64 n

abbrev pub add64 : ℕ → ℕ → ℕ
add64 a b = (a + b) % 2 ^ 64

abbrev pub sub64 : ℕ → ℕ → ℕ
sub64 a b = (a + 2 ^ 64 - b) % 2 ^ 64

-- The `k` bytes of a word in memory, lowest first, and the word that bytes in memory make.
abbrev pub le_bytes : ℕ → ℕ → List ℕ
le_bytes zero v = []
le_bytes (suc k) v = (v % 256) ∷ le_bytes k (v / 256)

abbrev pub of_le_bytes : List ℕ → ℕ
of_le_bytes [] = 0
of_le_bytes (b ∷ bs) = b + 256 * of_le_bytes bs

pub of_le_bytes-le_bytes : (k v : ℕ) → v < 256 ^ k → of_le_bytes (le_bytes k v) ≡ v
of_le_bytes-le_bytes zero v h = omega arith
of_le_bytes-le_bytes (suc k) v h =
    omega (arith, of_le_bytes-le_bytes k (v / 256) (omega (arith, pow-suc 256 k)))

-- What a recursion into lists of bytes keeps.
abbrev pub Bytes : List ℕ → Type 0
Bytes [] = Unit
Bytes (b ∷ bs) = (b < 256) × Bytes bs

pub Bytes-append : (xs ys : List ℕ) → Bytes xs → Bytes ys → Bytes (xs ++ ys)
Bytes-append [] ys hx hy = hy
Bytes-append (x ∷ xs) ys hx hy = (hx.0, Bytes-append xs ys hx.1 hy)

pub Bytes-le_bytes : (k v : ℕ) → Bytes (le_bytes k v)
Bytes-le_bytes zero v = tt
Bytes-le_bytes (suc k) v = (omega arith, Bytes-le_bytes k (v / 256))

pub le_bytes-of_le_bytes : (xs : List ℕ) → Bytes xs → le_bytes (length xs) (of_le_bytes xs) ≡ xs
le_bytes-of_le_bytes [] h = refl
le_bytes-of_le_bytes (b ∷ bs) h =
    ap₂ ◌∷◌ (let e : (b + 256 * of_le_bytes bs) % 256 ≡ b = omega (arith, h.0) in e) (
      ap (le_bytes (length bs))
        (let e : (b + 256 * of_le_bytes bs) / 256 ≡ of_le_bytes bs = omega (arith, h.0) in e)
      ∙ le_bytes-of_le_bytes bs h.1)
