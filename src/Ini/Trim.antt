-- ===== src/Ini/Trim.antt =====
-- Texts that trimming leaves alone, and the places where lines and pairs are cut.
use jellybean.Base.{ℕ, ◌≡◌, ◌≢◌, refl, ap, ◌∙◌, arith, false, some, [], ◌∷◌, ◌++◌, ◌==◌}
use jellybean.Base.Text.{Text, one_of, is_empty, erase_front, erase_back, cut, split_on}
use jellybean.Ini.{trim}

-- The first byte is no blank.
abbrev pub OpensPlain : Text → Text → Type 0
OpensPlain ws [] = Unit
OpensPlain ws (c ∷ cs) = one_of ws c ≡ false

-- The last byte is no blank.
abbrev pub ClosesPlain : Text → Text → Type 0
ClosesPlain ws [] = Unit
ClosesPlain ws (c ∷ []) = one_of ws c ≡ false
ClosesPlain ws (c ∷ d ∷ ds) = ClosesPlain ws (d ∷ ds)

-- The byte `c` does not occur.
abbrev pub Avoids : ℕ → Text → Type 0
Avoids c [] = Unit
Avoids c (d ∷ ds) = (d ≢ c) × Avoids c ds

erase_front-plain : (ws s : Text) → OpensPlain ws s → erase_front ws s ≡ s
unfolding erase_front
erase_front-plain ws [] h = refl
erase_front-plain ws (c ∷ cs) h = rw h

erase_back-cons :
    (ws : Text) (c : ℕ) (cs : Text)
    → is_empty (erase_back ws cs) ≡ false
    → erase_back ws (c ∷ cs) ≡ c ∷ erase_back ws cs
unfolding erase_back
erase_back-cons ws c cs h = ground arith

erase_back-plain : (ws s : Text) → ClosesPlain ws s → erase_back ws s ≡ s
unfolding erase_back
erase_back-plain ws [] h = refl
erase_back-plain ws (c ∷ []) h = rw h
erase_back-plain ws (c ∷ d ∷ ds) h =
    let rest = erase_back-plain ws (d ∷ ds) h in
    erase_back-cons ws c (d ∷ ds) (ap is_empty rest) ∙ ap (λ t. c ∷ t) rest

pub trim-plain : (ws s : Text) → OpensPlain ws s → ClosesPlain ws s → trim ws s ≡ s
unfolding trim
trim-plain ws s p q = ap (erase_back ws) (erase_front-plain ws s p) ∙ erase_back-plain ws s q

eq_false : (a b : ℕ) → a ≢ b → (a == b) ≡ false
eq_false a b h = ground arith

pub cut-append :
    (sep : ℕ) (s rest : Text) → Avoids sep s → cut sep (s ++ (sep ∷ rest)) ≡ some (s, rest)
unfolding cut
cut-append sep [] rest h = ground arith
cut-append sep (c ∷ cs) rest h = rw (eq_false c sep h.0, cut-append sep cs rest h.1)

pub split_on-append :
    (sep : ℕ) (s rest : Text)
    → Avoids sep s
    → split_on sep (s ++ (sep ∷ rest)) ≡ s ∷ split_on sep rest
unfolding split_on
split_on-append sep [] rest h = ground arith
split_on-append sep (c ∷ cs) rest h = ground (arith, h.0, split_on-append sep cs rest h.1)
