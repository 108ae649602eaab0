-- ===== src/Model/Repository.antt =====
-- `ModelRepository` of include/jellybean/model/model_repository.hpp and
-- src/model/model_repository.cpp. An exception leaves what was done to the registry.
pub mod Load
pub mod Scan
use jellybean.Base.{
  ℕ, zero, suc, ◌+◌, Bool, true, false, not, ◌&&◌, ◌||◌, Option, none, some, List, [], ◌∷◌, ◌++◌,
  if◌then◌else◌,
}
use jellybean.Base.Text.{Text, codes, is_empty, starts_with}
use jellybean.Base.Outcome.{Outcome, ok, throws}
use jellybean.Base.Numerals.{stoi}
use jellybean.Model.Config.{
  BackendKind, torch_script, onnx, ModelConfig, ModelDir, DirEntry, from_dir, filename,
}
use jellybean.Inference.Torch.{TorchBackend, TorchLoader, make_torch_backend, load}
use jellybean.Model.Registry.{
  ModelMetadata, loading, ready, failed, Models, make_unique, register_model, find_model,
  unregister, store_state, store_backend,
}

-- What a directory of the repository is: a model directory, or a file with its name.
pub record RepoEntry : Type 0 where
  pub is_directory : Bool
  pub dir : ModelDir

pub record LoadResult : Type 0 where
  pub loaded : ℕ
  pub failures : ℕ
  pub skipped : ℕ
  pub failed_names : List Text

abbrev pub no_result : LoadResult
no_result = record { loaded = 0; failures = 0; skipped = 0; failed_names = [] }

unfoldable pub make_backend {ℓ} : {Module : Type ℓ} → BackendKind → Option (TorchBackend Module)
make_backend torch_script = some make_torch_backend
make_backend onnx = none

abbrev is_number : Text → Bool
unfolding stoi
is_number t = elim (stoi t) [ ok v ↦ true | throws e ↦ false ]

-- The search for a version directory.
unfoldable pub has_version : List DirEntry → Bool
unfolding stoi
has_version [] = false
has_version (sub ∷ subs) = (sub.is_directory && is_number sub.entry_name) || has_version subs

abbrev has_config : Option Text → Bool
has_config none = false
has_config (some c) = true

-- The entries that the loop passes over: hidden ones, and those that are no model directories.
unfoldable pub is_skipped : ModelDir → Bool
unfolding filename has_version
is_skipped d =
    starts_with b'.' (filename d.path) || not (has_config d.config_ini || has_version d.dir_entries)

abbrev pub counted : LoadResult → Text → Bool → LoadResult
counted r name true = record r { loaded = r.loaded + 1 }
counted r name false = record r {
  failures = r.failures + 1;
  failed_names = r.failed_names ++ (name ∷ []);
}

-- An exception ends the loop, and leaves the state.
abbrev pub and_then {ℓ κ} :
    {R : Type ℓ} {W : Type κ} → Outcome R × W → (R × W → Outcome R × W) → Outcome R × W
and_then (throws e, w) f = (throws e, w)
and_then (ok r, w) f = f (r, w)

-- The end of a round, with the answer of `load_model`.
unfoldable pub count_load {ℓ} :
    {W : Type ℓ} → LoadResult → Text → Outcome Bool × W → Outcome LoadResult × W
count_load r name (throws e, w) = (throws e, w)
count_load r name (ok done, w) = (ok (counted r name done), w)

module _ {ℓ} {Module : Type ℓ} where
  -- Models registered under the name are unregistered first.
  unfoldable pub unregister_old : Models Module → Text → Models Module
  unfolding find_model unregister
  unregister_old w name = elim (find_model w name) [ none ↦ w | some old ↦ (unregister w name).1 ]

  abbrev fail : Models Module → ℕ → Bool × Models Module
  unfolding store_state
  fail w p = (false, store_state w p failed)

  -- What `load_model` does through `meta_ptr` with the backend.
  unfoldable pub finish_load :
      Models Module → ℕ → Option (Bool × TorchBackend Module) → Bool × Models Module
  unfolding store_state store_backend
  finish_load w p none = fail w p
  finish_load w p (some (false, b)) = fail w p
  finish_load w p (some (true, b)) = (true, store_state (store_backend w p b) p ready)

module _ {ℓ} {Module : Type ℓ} (torch : TorchLoader Module) where
  -- The backend made and asked to load, if one is made.
  unfoldable pub try_load : ModelConfig → Option (Bool × TorchBackend Module)
  unfolding make_backend load
  try_load cfg = elim (make_backend {Module = Module} cfg.backend) [
    | none ↦ none
    | some b ↦ some (load torch b cfg.name cfg.model_file_path cfg.device)
  ]

  -- `load_model` once the configuration is read.
  unfoldable pub load_config : Models Module → ModelConfig → Bool × Models Module
  unfolding make_unique unregister_old register_model try_load finish_load
  load_config w cfg =
      if is_empty cfg.name
      then (false, w)
      else let (p, w1) = make_unique w in
        let meta : ModelMetadata Module = record {
          config = cfg;
          state = loading;
          backend = none;
        } in
        let (inserted, w3) = register_model (unregister_old w1 cfg.name) (some (p, meta)) in
        if inserted then finish_load w3 p (try_load cfg) else (false, w3)

  unfoldable pub load_outcome : Models Module → Outcome ModelConfig → Outcome Bool × Models Module
  unfolding load_config
  load_outcome w (throws e) = (throws e, w)
  load_outcome w (ok cfg) = (ok (load_config w cfg).0, (load_config w cfg).1)

  unfoldable pub load_model : Models Module → ModelDir → Outcome Bool × Models Module
  unfolding load_outcome from_dir
  load_model w d = load_outcome w (from_dir d)

  -- One round of the loop, and the loop.
  unfoldable pub scan_entry :
      LoadResult × Models Module → RepoEntry → Outcome LoadResult × Models Module
  unfolding is_skipped load_model filename count_load
  scan_entry s entry =
      if not entry.is_directory
      then (ok s.0, s.1)
      else if is_skipped entry.dir
      then (ok (record s.0 { skipped = s.0.skipped + 1 }), s.1)
      else count_load s.0 (filename entry.dir.path) (load_model s.1 entry.dir)

  unfoldable pub scan_entries :
      LoadResult × Models Module → List RepoEntry → Outcome LoadResult × Models Module
  unfolding scan_entry
  scan_entries s [] = (ok s.0, s.1)
  scan_entries s (entry ∷ entries) = and_then (scan_entry s entry) (λ t. scan_entries t entries)

  -- `none` is a root that is no directory.
  unfoldable pub scan_and_load :
      Option (List RepoEntry) → Models Module → Outcome LoadResult × Models Module
  unfolding scan_entries
  scan_and_load none w = (ok no_result, w)
  scan_and_load (some entries) w = scan_entries (no_result, w) entries
