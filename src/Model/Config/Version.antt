-- ===== src/Model/Config/Version.antt =====
-- Which version of a model `from_dir` chooses.
use jellybean.Base.{◌≡◌, ◌⊎◌, true, false, List, [], ◌∷◌}
use jellybean.Base.Text.{Text, is_empty}
use jellybean.Base.Outcome.{Outcome, ok}
use jellybean.Base.Int.{ℤ, negsuc, ◌<ℤ◌}
use jellybean.Base.Numerals.{stoi, to_text}
use jellybean.Model.Config.Own.{IsModelFile, HasFile}
use jellybean.Model.Config.{ModelConfig, DirEntry, ModelDir, join, versioned_file}

-- An entry is a version directory with a model file at `path`.
abbrev pub Offers : Text → DirEntry → ℤ → Text → Type 0
Offers dir e v path =
    (e.is_directory ≡ true)
    × (stoi e.entry_name ≡ ok v)
    × IsModelFile (join dir e.entry_name) e.files path

abbrev pub Somewhere : Text → List DirEntry → ℤ → Text → Type 0
Somewhere dir [] v path = ⊥
Somewhere dir (e ∷ es) v path = Offers dir e v path ⊎ Somewhere dir es v path

-- No version offered is above `best`.
abbrev pub NoneAbove : Text → List DirEntry → ℤ → Type 0
NoneAbove dir es best = (v : ℤ) (path : Text) → Somewhere dir es v path → ¬ (best <ℤ v)

-- Nothing above the best version so far is offered, or the round takes what is offered.
abbrev Step {ℓ} : (ℤ → Text → Type ℓ) → ℤ × ModelConfig → ℤ × ModelConfig → Type ℓ
Step P s s' =
    ((s' ≡ s) × ((v : ℤ) (path : Text) → P v path → ¬ (s.0 <ℤ v)))
    ⊎ ((v : ℤ) × (path : Text) × P v path
        × (s.0 <ℤ v)
        × (s' ≡ (v, record s.1 { version = v; model_file_path = path })))

-- What a version's name and its model file offer.
abbrev Taken : Outcome ℤ → Text → ℤ → Text → Type 0
Taken o candidate v path = (o ≡ ok v) × (candidate ≡ path) × (is_empty path ≡ false)

-- The state stays, or becomes that of a version offered that is above the best.
abbrev pub Chosen : Text → List DirEntry → ℤ × ModelConfig → ℤ × ModelConfig → Type 0
Chosen dir es s s' =
    (s' ≡ s)
    ⊎ ((v : ℤ) × (path : Text) × Somewhere dir es v path
        × (s.0 <ℤ v)
        × (s' ≡ (v, record s.1 { version = v; model_file_path = path })))

-- No version offered is above the new best.
abbrev pub Best : Text → List DirEntry → ℤ × ModelConfig → ℤ × ModelConfig → Type 0
Best dir es s s' = (¬ (s'.0 <ℤ s.0)) × NoneAbove dir es s'.0 × Chosen dir es s s'

-- The configured version's own file, or else the best version there is.
abbrev pub Resolves : ModelDir → ModelConfig → ModelConfig → Type 0
Resolves d cfg r =
    ((path : Text) × HasFile d.path (to_text cfg.version) d.dir_entries path
      × (r ≡ record cfg { model_file_path = path }))
    ⊎ ((best : ℤ) × ((path : Text) → ¬ HasFile d.path (to_text cfg.version) d.dir_entries path)
        × Best d.path d.dir_entries (negsuc 0, cfg) (best, r))

abbrev own_file : ModelDir → ModelConfig → Text
own_file d cfg = versioned_file d.path (to_text cfg.version) d.dir_entries
