-- ===== src/Ini.antt =====
-- Files of `key=value` lines, as RuntimeConfig::from_file of src/inference/runtime.cpp,
-- load_extended_config of src/server/main.cpp and ModelConfig::from_dir of
-- src/model/model_config.cpp read them.
pub mod Trim
pub mod RoundTrip
use jellybean.Base.{ℕ, Option, none, some, ◌||◌, List, [], ◌∷◌, if◌then◌else◌}
use jellybean.Base.Text.{
  Text, codes, is_empty, starts_with, erase_front, erase_back, cut, split_on, text_eq,
}
use jellybean.Base.Outcome.{Outcome, fold_outcome}

-- `trim`, for the blanks `ws`.
unfoldable pub trim : Text → Text → Text
unfolding erase_front erase_back
trim ws s = erase_back ws (erase_front ws s)

-- One round of the loops: nothing for an empty line, a comment or a line without `=`.
unfoldable pub read_line : Text → Text → Option (Text × Text)
unfolding trim cut
read_line ws line =
    if is_empty line || starts_with b'#' line
    then none
    else elim (cut b'=' line) [ none ↦ none | some (key, val) ↦ some (trim ws key, trim ws val) ]

abbrev pub blanks : Text
blanks = codes " \t\r"

-- The blanks of model_config.cpp, where the line is trimmed first.
abbrev pub wide_blanks : Text
wide_blanks = codes " \t\r\n"

unfoldable pub read_trimmed : Text → Option (Text × Text)
unfolding read_line trim
read_trimmed line = read_line wide_blanks (trim wide_blanks line)

abbrev pub cons_some {ℓ} : {A : Type ℓ} → Option A → List A → List A
cons_some none xs = xs
cons_some (some x) xs = x ∷ xs

-- The pairs that the rounds of a loop go on with.
unfoldable pub entries : (Text → Option (Text × Text)) → List Text → List (Text × Text)
entries read [] = []
entries read (line ∷ lines) = cons_some (read line) (entries read lines)

-- A whole file.
unfoldable pub file_entries : (Text → Option (Text × Text)) → Text → List (Text × Text)
unfolding entries split_on
file_entries read contents = entries read (split_on b'\n' contents)
