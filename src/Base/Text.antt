-- ===== src/Base/Text.antt =====
-- Texts as lists of their bytes, and what the code calls of std::string and std::getline.
use Prim.Native.Nat.{ℕ}
use Prim.Native.Char.{code}
use Prim.Native.String.{String}
use mathlib.Core.Path.{◌≡◌}
use mathlib.Core.Logic.{◌↔◌, ◌⊎◌, inl, inr, ◌≢◌}
use mathlib.Core.Bool.{Bool, true, false, ◌&&◌, ◌||◌}
use mathlib.Core.Option
use mathlib.Core.Option.{Option, none, some}
use mathlib.Core.List.{List, [], ◌∷◌}
use native.Mathlib.Omega.{arith}
use jellybean.Base.Tests.{◌==◌, Bool-cases, if◌then◌else◌}

abbrev pub Text : Type 0
Text = List ℕ

-- A literal.
abbrev pub codes : String → Text
codes String.[] = []
codes (String.◌∷◌ c s) = code c ∷ codes s

abbrev pub text_eq : Text → Text → Bool
text_eq [] [] = true
text_eq [] (b ∷ bs) = false
text_eq (a ∷ as') [] = false
text_eq (a ∷ as') (b ∷ bs) = a == b && text_eq as' bs

pub text_eq_iff : (s t : Text) → (text_eq s t ≡ true) ↔ (s ≡ t)
text_eq_iff [] [] = ground arith
text_eq_iff [] (b ∷ bs) = ground arith
text_eq_iff (a ∷ as') [] = ground arith
text_eq_iff (a ∷ as') (b ∷ bs) = ground (arith, text_eq_iff as' bs)

pub Text-cases : (s t : Text) → (s ≡ t) ⊎ (s ≢ t)
Text-cases s t = elim (Bool-cases (text_eq s t)) [
  | inl same ↦ inl ((text_eq_iff s t).0 same)
  | inr other ↦ inr (λ e. cc ((text_eq_iff s t).1 e, other))
]

abbrev pub is_empty : Text → Bool
is_empty [] = true
is_empty (c ∷ cs) = false

-- Is the text's first byte `c`?
abbrev pub starts_with : ℕ → Text → Bool
starts_with c [] = false
starts_with c (d ∷ ds) = d == c

abbrev pub one_of : Text → ℕ → Bool
one_of [] c = false
one_of (w ∷ ws) c = c == w || one_of ws c

-- `s.erase(0, s.find_first_not_of(ws))`
unfoldable pub erase_front : Text → Text → Text
erase_front ws [] = []
erase_front ws (c ∷ cs) = let rest = erase_front ws cs in if one_of ws c then rest else c ∷ cs

-- `s.erase(s.find_last_not_of(ws) + 1)`
unfoldable pub erase_back : Text → Text → Text
erase_back ws [] = []
erase_back ws (c ∷ cs) =
    let rest = erase_back ws cs in if one_of ws c && is_empty rest then [] else c ∷ rest

-- The text before the first `sep` and the text behind it, from `find` and `substr`.
unfoldable pub cut : ℕ → Text → Option (Text × Text)
cut sep [] = none
cut sep (c ∷ cs) =
    let rest = cut sep cs in
    if c == sep then some ([], cs) else Option.map (λ p. (c ∷ p.0, p.1)) rest

abbrev pub extend_first : ℕ → List Text → List Text
extend_first c [] = (c ∷ []) ∷ []
extend_first c (l ∷ ls) = (c ∷ l) ∷ ls

-- What `getline(stream, item, sep)` reads until it fails.
unfoldable pub split_on : ℕ → Text → List Text
split_on sep [] = []
split_on sep (c ∷ cs) =
    let rest = split_on sep cs in if c == sep then [] ∷ rest else extend_first c rest
