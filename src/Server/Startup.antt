-- ===== src/Server/Startup.antt =====
-- `main` of src/server/main.cpp up to the server's sockets: it reads the settings, loads the models, and
-- registers those that are ready with the runtime. The files and directories are parameters.
pub mod Lists
pub mod Registers
pub mod Serves
use jellybean.Base.{
  ℕ, Bool, true, false, Option, none, some, List, [], ◌∷◌, ◌++◌, ◌==◌, if◌then◌else◌,
}
use jellybean.Base.Text.{Text, codes}
use jellybean.Base.Outcome.{Exception, Outcome, ok, throws}
use jellybean.Inference.Settings
use jellybean.Inference.Settings.{RuntimeConfig}
use jellybean.Inference.Torch.{TorchLoader}
use jellybean.Inference.Runtime
use jellybean.Inference.Runtime.{Runtime, make_runtime}
use jellybean.Model.Registry.{
  ModelState, ready, ModelInfo, Models, no_models, is_ready, is_ready_state, lookup_ready,
  list_models,
}
use jellybean.Model.Repository.{RepoEntry, LoadResult, scan_and_load}
use jellybean.Server.Settings.{ExtendedConfig, load_extended_config}

-- Is what a pointer leads to ready?
abbrev pub points_to_ready {ℓ} : {Module : Type ℓ} → Models Module → ℕ → Bool
points_to_ready w p = elim (w.object p) [ none ↦ false | some m ↦ is_ready m ]

module _ {ℓ κ} {Module : Type ℓ} {Float : Type κ} where
  abbrev pub register_found : Models Module → Runtime Float → Text → Option ℕ → Runtime Float
  unfolding Runtime.register_model
  register_found w r name none = r
  register_found w r name (some p) = (Runtime.register_model r name (points_to_ready w p)).1

  -- A round of the loop over what the registry lists, and the loop.
  unfoldable pub register_info : Models Module → Runtime Float → ModelInfo → Runtime Float
  unfolding lookup_ready Runtime.register_model
  register_info w r info =
      if is_ready_state info.state
      then register_found w r info.name (lookup_ready w info.name)
      else r

  unfoldable pub register_ready : Models Module → List ModelInfo → Runtime Float → Runtime Float
  unfolding register_info
  register_ready w [] r = r
  register_ready w (info ∷ infos) r = register_ready w infos (register_info w r info)

-- How the start ends: with an exception of a reader, with a ServerException of this text, or with the
-- registry, the runtime and the settings that the server goes on with.
pub data Started {ℓ κ} (Module : Type ℓ) (Float : Type κ) : Type (ℓ ⊔ κ) where
  aborts : Exception → Started Module Float
  no_model : Text → Started Module Float
  started : Models Module → Runtime Float → ExtendedConfig → Started Module Float

module _ {ℓ κ} {Module : Type ℓ} {Float : Type κ} where
  unfoldable pub after_scan :
      RuntimeConfig → ExtendedConfig → Outcome LoadResult × Models Module → Started Module Float
  unfolding register_ready list_models
  after_scan cfg ext (throws e, w) = aborts e
  after_scan cfg ext (ok result, w) =
      if result.loaded == 0
      then no_model (
          codes "Server Error: No models were successfully loaded from repository: "
          ++ ext.model_repository)
      else started w (register_ready w (list_models w) (make_runtime cfg)) ext

  abbrev pub after_settings :
      TorchLoader Module
      → (Text → Option (List RepoEntry))
      → Outcome RuntimeConfig
      → Outcome ExtendedConfig
      → Started Module Float
  unfolding after_scan scan_and_load
  after_settings torch directory (throws e) ext = aborts e
  after_settings torch directory (ok cfg) (throws e) = aborts e
  after_settings torch directory (ok cfg) (ok ext) =
      after_scan cfg ext (scan_and_load torch (directory ext.model_repository) no_models)

  -- `none` is a settings file that does not open.
  unfoldable pub start_up :
      TorchLoader Module → (Text → Option (List RepoEntry)) → Option Text → Started Module Float
  unfolding after_settings Settings.from_file load_extended_config
  start_up torch directory contents =
      after_settings torch directory (Settings.from_file contents) (load_extended_config contents)
