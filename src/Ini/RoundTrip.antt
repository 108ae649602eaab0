-- ===== src/Ini/RoundTrip.antt =====
-- Reading a file back that was written line by line.
use jellybean.Base.{
  ℕ, ◌≡◌, refl, ap, ap₂, ◌∙◌, arith, false, ◌||◌, Option, none, some, List, [], ◌∷◌, ◌++◌,
}
use jellybean.Base.Text.{Text, is_empty, starts_with, one_of}
use jellybean.Ini.{read_line, read_trimmed, cons_some, entries, file_entries, wide_blanks}
use jellybean.Ini.Trim.{OpensPlain, ClosesPlain, Avoids, trim-plain, cut-append, split_on-append}

pub data Line : Type 0 where
  assign : Text → Text → Line
  comment : Text → Line
  blank : Line

abbrev pub line_text : Line → Text
line_text (assign key val) = key ++ (b'=' ∷ val)
line_text (comment t) = b'#' ∷ t
line_text blank = []

abbrev pub render : List Line → Text
render [] = []
render (l ∷ ls) = line_text l ++ (b'\n' ∷ render ls)

abbrev pub pairs : List Line → List (Text × Text)
pairs [] = []
pairs (assign key val ∷ ls) = (key, val) ∷ pairs ls
pairs (comment t ∷ ls) = pairs ls
pairs (blank ∷ ls) = pairs ls

-- A key or a value without blanks around it and on one line.
pub record IsPlain (ws s : Text) : Type 0 where
  pub opens : OpensPlain ws s
  pub closes : ClosesPlain ws s
  pub one_line : Avoids b'\n' s

abbrev pub IsClean : Text → Line → Type 0
IsClean ws (assign key val) =
    IsPlain ws key × IsPlain ws val × Avoids b'=' key × (starts_with b'#' key ≡ false)
IsClean ws (comment t) = Avoids b'\n' t × ClosesPlain ws t
IsClean ws blank = Unit

abbrev pub AllClean : Text → List Line → Type 0
AllClean ws [] = Unit
AllClean ws (l ∷ ls) = IsClean ws l × AllClean ws ls

-- What a line is read as.
abbrev pair : Line → Option (Text × Text)
pair (assign key val) = some (key, val)
pair (comment t) = none
pair blank = none

Avoids-append : (c : ℕ) (s t : Text) → Avoids c s → Avoids c t → Avoids c (s ++ t)
Avoids-append c [] t p q = q
Avoids-append c (d ∷ ds) t p q = (p.0, Avoids-append c ds t p.1 q)

line_text-Avoids : (ws : Text) (l : Line) → IsClean ws l → Avoids b'\n' (line_text l)
line_text-Avoids ws (assign key val) h =
    Avoids-append b'\n' key (b'=' ∷ val) h.0.one_line (omega arith, h.1.one_line)
line_text-Avoids ws (comment t) h = (omega arith, h.0)
line_text-Avoids ws blank h = tt

-- The guard of the loops lets an assignment through.
passes :
    (key val : Text)
    → starts_with b'#' key ≡ false
    → (is_empty (key ++ (b'=' ∷ val)) || starts_with b'#' (key ++ (b'=' ∷ val))) ≡ false
passes [] val h = refl
passes (c ∷ cs) val h = h

read_line-pair : (ws : Text) (l : Line) → IsClean ws l → read_line ws (line_text l) ≡ pair l
unfolding read_line
read_line-pair ws (assign key val) h = rw (
  passes key val h.3,
  cut-append b'=' key val h.2,
  trim-plain ws key h.0.opens h.0.closes,
  trim-plain ws val h.1.opens h.1.closes,
)
read_line-pair ws (comment t) h = refl
read_line-pair ws blank h = refl

line_text-opens : (l : Line) → IsClean wide_blanks l → OpensPlain wide_blanks (line_text l)
line_text-opens (assign [] val) h = refl
line_text-opens (assign (c ∷ cs) val) h = h.0.opens
line_text-opens (comment t) h = refl
line_text-opens blank h = tt

ClosesPlain-append :
    (ws s : Text) (c : ℕ) (t : Text) → ClosesPlain ws (c ∷ t) → ClosesPlain ws (s ++ (c ∷ t))
ClosesPlain-append ws [] c t h = h
ClosesPlain-append ws (d ∷ []) c t h = h
ClosesPlain-append ws (d ∷ e ∷ ds) c t h = ClosesPlain-append ws (e ∷ ds) c t h

ClosesPlain-cons :
    (ws : Text) (c : ℕ) (t : Text) → one_of ws c ≡ false → ClosesPlain ws t → ClosesPlain ws (c ∷ t)
ClosesPlain-cons ws c [] p h = p
ClosesPlain-cons ws c (d ∷ ds) p h = h

line_text-closes : (l : Line) → IsClean wide_blanks l → ClosesPlain wide_blanks (line_text l)
line_text-closes (assign key val) h =
    ClosesPlain-append wide_blanks key b'=' val
      (ClosesPlain-cons wide_blanks b'=' val refl h.1.closes)
line_text-closes (comment t) h = ClosesPlain-cons wide_blanks b'#' t refl h.1
line_text-closes blank h = tt

read_trimmed-pair : (l : Line) → IsClean wide_blanks l → read_trimmed (line_text l) ≡ pair l
unfolding read_trimmed
read_trimmed-pair l h =
    ap (read_line wide_blanks)
      (trim-plain wide_blanks (line_text l) (line_text-opens l h) (line_text-closes l h))
    ∙ read_line-pair wide_blanks l h

pairs-cons : (l : Line) (ls : List Line) → cons_some (pair l) (pairs ls) ≡ pairs (l ∷ ls)
pairs-cons (assign key val) ls = refl
pairs-cons (comment t) ls = refl
pairs-cons blank ls = refl

module _ (ws : Text) (read : Text → Option (Text × Text)) where
  module _ (reads : (l : Line) → IsClean ws l → read (line_text l) ≡ pair l) where
    file_entries-render :
        (ls : List Line) → AllClean ws ls → file_entries read (render ls) ≡ pairs ls
    unfolding file_entries
    file_entries-render [] h = refl
    file_entries-render (l ∷ ls) h =
        ap (entries read)
          (split_on-append b'\n' (line_text l) (render ls) (line_text-Avoids ws l h.0))
        ∙ (ap₂ cons_some (reads l h.0) (file_entries-render ls h.1) ∙ pairs-cons l ls)

-- A file of clean lines is read as its assignments, in order.
pub file_entries-read_line :
    (ws : Text) (ls : List Line)
    → AllClean ws ls
    → file_entries (read_line ws) (render ls) ≡ pairs ls
file_entries-read_line ws = file_entries-render ws (read_line ws) (read_line-pair ws)

pub file_entries-read_trimmed :
    (ls : List Line) → AllClean wide_blanks ls → file_entries read_trimmed (render ls) ≡ pairs ls
file_entries-read_trimmed = file_entries-render wide_blanks read_trimmed read_trimmed-pair
