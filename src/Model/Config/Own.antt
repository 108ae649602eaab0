-- ===== src/Model/Config/Own.antt =====
-- The model file of a directory, and that of the configured version.
use jellybean.Base.{
  ◌≡◌, ◌≢◌, ◌⊎◌, ◌↔◌, inl, inr, refl, sym, ap, ◌∙◌, arith, true, false, List, [], ◌∷◌, Bool-cases,
}
use jellybean.Base.Text.{Text, codes, is_empty, text_eq, text_eq_iff}
use jellybean.Model.Config.{
  DirEntry, join, candidates, exists_in, first_file, find_model_file, versioned_file,
}

-- The names that a model file can have, the preferred one first.
abbrev model_names : List Text
model_names =
    codes "model.pt"
    ∷ codes "model.pth"
    ∷ codes "model.onnx"
    ∷ codes "model.engine"
    ∷ codes "model.bin"
    ∷ []

abbrev Among : Text → List Text → Type 0
Among name [] = ⊥
Among name (f ∷ fs) = (f ≡ name) ⊎ Among name fs

-- `path` is that of the first of the names that is among the files.
abbrev FirstOf : Text → List Text → List Text → Text → Type 0
FirstOf dir files [] path = ⊥
FirstOf dir files (name ∷ names) path =
    (Among name files × (join dir name ≡ path))
    ⊎ ((¬ Among name files) × FirstOf dir files names path)

-- A directory of these files has its model file at `path`.
abbrev pub IsModelFile : Text → List Text → Text → Type 0
IsModelFile dir files path = FirstOf dir files model_names path × (is_empty path ≡ false)

exists_in-Among :
    (files : List Text) (name : Text) → (exists_in files name ≡ true) ↔ Among name files
exists_in-Among [] name = ground arith
exists_in-Among (f ∷ fs) name = ground (arith, text_eq_iff f name, exists_in-Among fs name)

first_file-FirstOf :
    (dir path : Text) (files names : List Text)
    → first_file dir files names ≡ path
    → is_empty path ≡ false
    → FirstOf dir files names path
unfolding first_file
first_file-FirstOf dir path files [] h named = absurd (cc (ap is_empty h, named))
first_file-FirstOf dir path files (name ∷ names) h named =
    elim (Bool-cases (exists_in files name)) [
      | inl there ↦ inl ((exists_in-Among files name).0 there, (rw there at h))
      | inr other ↦ inr (
        (λ there. cc ((exists_in-Among files name).1 there, other)),
        first_file-FirstOf dir path files names (rw other at h) named,
      )
    ]

FirstOf-first_file :
    (dir path : Text) (files names : List Text)
    → FirstOf dir files names path
    → first_file dir files names ≡ path
unfolding first_file
FirstOf-first_file dir path files [] h = absurd h
FirstOf-first_file dir path files (name ∷ names) (inl (there, found)) =
    rw ((exists_in-Among files name).1 there) found
FirstOf-first_file dir path files (name ∷ names) (inr (other, h)) =
    ground (arith, exists_in-Among files name, FirstOf-first_file dir path files names h)

pub find_model_file-IsModelFile :
    (dir path : Text) (files : List Text)
    → find_model_file dir files ≡ path
    → is_empty path ≡ false
    → IsModelFile dir files path
unfolding find_model_file
find_model_file-IsModelFile dir path files h named =
    (first_file-FirstOf dir path files candidates h named, named)

pub IsModelFile-find_model_file :
    (dir path : Text) (files : List Text)
    → IsModelFile dir files path
    → find_model_file dir files ≡ path
unfolding find_model_file
IsModelFile-find_model_file dir path files h = FirstOf-first_file dir path files candidates h.0

module _ (dir version : Text) (e : DirEntry) (es : List DirEntry) where
  first-directory :
      text_eq e.entry_name version ≡ true
      → e.is_directory ≡ true
      → versioned_file dir version (e ∷ es) ≡ find_model_file (join dir version) e.files
  unfolding versioned_file
  first-directory same is_dir = rw (same, is_dir) refl

  first-file :
      text_eq e.entry_name version ≡ true
      → e.is_directory ≡ false
      → versioned_file dir version (e ∷ es) ≡ []
  unfolding versioned_file
  first-file same file = rw (same, file) refl

  first-other :
      text_eq e.entry_name version ≡ false
      → versioned_file dir version (e ∷ es) ≡ versioned_file dir version es
  unfolding versioned_file
  first-other other = rw other refl

-- The first entry of the version's name is a directory with the model file `path`.
abbrev pub HasFile : Text → Text → List DirEntry → Text → Type 0
HasFile dir version [] path = ⊥
HasFile dir version (e ∷ es) path =
    ((e.entry_name ≡ version)
      × (e.is_directory ≡ true)
      × IsModelFile (join dir version) e.files path)
    ⊎ ((e.entry_name ≢ version) × HasFile dir version es path)

pub versioned_file-HasFile :
    (dir version path : Text) (es : List DirEntry)
    → versioned_file dir version es ≡ path
    → is_empty path ≡ false
    → HasFile dir version es path
unfolding versioned_file
versioned_file-HasFile dir version path [] h named = absurd (cc (ap is_empty h, named))
versioned_file-HasFile dir version path (e ∷ es) h named =
    elim (Bool-cases (text_eq e.entry_name version)) [
      | inl same ↦ elim (Bool-cases e.is_directory) [
        | inl is_dir ↦ inl (
          (text_eq_iff e.entry_name version).0 same,
          is_dir,
          find_model_file-IsModelFile (join dir version) path e.files
              (sym (first-directory dir version e es same is_dir) ∙ h) named,
        )
        | inr file ↦
            absurd (cc (ap is_empty (sym (first-file dir version e es same file) ∙ h), named))
      ]
      | inr other ↦ inr (
        (λ same. cc ((text_eq_iff e.entry_name version).1 same, other)),
        versioned_file-HasFile dir version path es (sym (first-other dir version e es other) ∙ h)
            named,
      )
    ]

pub HasFile-versioned_file :
    (dir version path : Text) (es : List DirEntry)
    → HasFile dir version es path
    → versioned_file dir version es ≡ path
unfolding versioned_file
HasFile-versioned_file dir version path [] h = absurd h
HasFile-versioned_file dir version path (e ∷ es) (inl (same, is_dir, found)) =
    rw ((text_eq_iff e.entry_name version).1 same, is_dir)
      (IsModelFile-find_model_file (join dir version) path e.files found)
HasFile-versioned_file dir version path (e ∷ es) (inr (other, h)) =
    ground (arith, text_eq_iff e.entry_name version, HasFile-versioned_file dir version path es h)

pub HasFile-named :
    (dir version path : Text) (es : List DirEntry)
    → HasFile dir version es path
    → is_empty path ≡ false
HasFile-named dir version path [] h = absurd h
HasFile-named dir version path (e ∷ es) (inl (same, is_dir, found)) = found.1
HasFile-named dir version path (e ∷ es) (inr (other, h)) = HasFile-named dir version path es h
