-- ===== src/Base/Dict.antt =====
-- A map with texts as keys as the list of its pairs. The order stands for that of std::unordered_map,
-- which is unspecified.
use mathlib.Core.Path.{◌≡◌, refl}
use mathlib.Core.Option.{Option, none, some}
use mathlib.Core.List.{List, [], ◌∷◌}
use native.Mathlib.Omega.{arith}
use jellybean.Base.Tests.{if◌then◌else◌}
use jellybean.Base.Text.{Text, text_eq, text_eq_iff}

abbrev pub Dict {ℓ} : Type ℓ → Type ℓ
Dict V = List (Text × V)

module _ {ℓ} {V : Type ℓ} where
  unfoldable pub lookup : Text → Dict V → Option V
  lookup k [] = none
  lookup k ((j, v) ∷ l) = if text_eq j k then some v else lookup k l

  unfoldable pub without : Text → Dict V → Dict V
  without k [] = []
  without k ((j, v) ∷ l) = let rest = without k l in if text_eq j k then rest else (j, v) ∷ rest

  pub lookup-cons :
      (k j : Text) (v : V) (l : Dict V)
      → lookup j ((k, v) ∷ l) ≡ (if text_eq k j then some v else lookup j l)
  unfolding lookup
  lookup-cons k j v l = refl

  pub lookup-without :
      (k j : Text) (l : Dict V)
      → lookup j (without k l) ≡ (if text_eq k j then none else lookup j l)
  unfolding lookup without
  lookup-without k j [] = ground arith
  lookup-without k j ((i, v) ∷ l) =
      ground (arith, lookup-without k j l, text_eq_iff i k, text_eq_iff i j, text_eq_iff k j)
