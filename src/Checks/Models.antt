-- ===== src/Checks/Models.antt =====
-- The model repository on a directory with a good model, a hidden one, one whose backend is not built
-- and one with a malformed configuration.
use jellybean.Base.{ℕ, ◌≡◌, refl, true, false, some, List, [], ◌∷◌, ◌++◌}
use jellybean.Base.Text.{Text, codes}
use jellybean.Base.Outcome.{ok, throws, invalid_argument}
use jellybean.Base.Dict.{lookup}
use jellybean.Base.Numerals.{stoi}
use jellybean.Model.Config.{ModelDir, from_dir}
use jellybean.Inference.Torch.{TorchLoader}
use jellybean.Model.Registry.{Models, no_models}
use jellybean.Model.Registry.Laws.{no_models-IsValid}
use jellybean.Model.Repository.{RepoEntry, LoadResult, is_skipped, load_model, scan_and_load}
use jellybean.Model.Repository.Load.{Loads, load_model-Loads}
use jellybean.Model.Repository.Scan.{scan_and_load-throws}

-- Modules are numbers, and every file loads.
abbrev pub torch : TorchLoader ℕ
torch = record { cuda_is_available = false; jit_load = λ path device. some 0 }

abbrev model_dir : Text → Text → ModelDir
model_dir path config = record { path = path; config_ini = some config; dir_entries = [] }

abbrev good : RepoEntry
good = record { is_directory = true; dir = model_dir (codes "models/bert") (codes "device=cpu") }

abbrev hidden : RepoEntry
hidden = record { is_directory = true; dir = model_dir (codes "models/.git") (codes "") }

abbrev not_built : RepoEntry
not_built = record {
  is_directory = true;
  dir = model_dir (codes "models/gpt") (codes "backend=onnx");
}

abbrev bad : RepoEntry
bad = record { is_directory = true; dir = model_dir (codes "models/bad") (codes "version=one") }

abbrev pub before : List RepoEntry
before = good ∷ hidden ∷ not_built ∷ []

abbrev counts : LoadResult
counts = record { loaded = 1; failures = 1; skipped = 1; failed_names = codes "gpt" ∷ [] }

counted_before : (scan_and_load torch (some before) no_models).0 ≡ ok counts
unfolding scan_and_load lookup
counted_before = refl

load_model-Loads_example :
    Loads torch no_models (from_dir good.dir) (load_model torch no_models good.dir)
load_model-Loads_example = load_model-Loads torch no_models good.dir no_models-IsValid

abbrev after_before : Models ℕ
unfolding scan_and_load
after_before = (scan_and_load torch (some before) no_models).1

scan_and_load-throws_example :
    scan_and_load torch (some (before ++ (bad ∷ good ∷ []))) no_models
    ≡ (throws invalid_argument, after_before)
unfolding scan_and_load from_dir is_skipped stoi lookup
scan_and_load-throws_example =
    scan_and_load-throws torch before (good ∷ []) bad no_models after_before counts invalid_argument
      refl refl refl refl
