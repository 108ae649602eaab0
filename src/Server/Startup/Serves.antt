-- ===== src/Server/Startup/Serves.antt =====
-- A server that has started serves the models that are ready, and no others.
use mathlib.Core.Path.{subst}
use jellybean.Base.{
  ℕ, ◌≡◌, refl, ap, ◌∙◌, arith, Bool, true, false, Option, none, some, List, ◌++◌, ◌==◌,
  if◌then◌else◌,
}
use jellybean.Base.Text.{Text, codes}
use jellybean.Base.Dict.{lookup}
use jellybean.Base.Outcome.{Outcome, ok, throws}
use jellybean.Inference.Types.{InferenceRequest, no_response}
use jellybean.Inference.Settings
use jellybean.Inference.Settings.{RuntimeConfig}
use jellybean.Inference.Torch.{TorchLoader}
use jellybean.Inference.Runtime.{Runtime, Route, replies, forwards, make_runtime, infer_async}
use jellybean.Model.Executor.{Executor}
use jellybean.Model.Registry.{Models, no_models, lookup_ready, list_models}
use jellybean.Model.Repository.{RepoEntry, LoadResult, scan_and_load}
use jellybean.Server.Settings.{ExtendedConfig, load_extended_config}
use jellybean.Server.Startup.{
  register_ready, Started, aborts, no_model, started, after_scan, after_settings, start_up,
}
use jellybean.Server.Startup.Lists.{is_some, lookup_ready-lists}
use jellybean.Server.Startup.Registers.{register_ready-lookup, register_ready-is_stopped}

-- What `infer_async` should do with a request when the registry answers this about its model.
abbrev pub route_of : Text → Option ℕ → Route
route_of model_id none =
    replies (record no_response { error = codes "model not registered in runtime: " ++ model_id })
route_of model_id (some p) = forwards model_id

routes_by {κ} :
    {Float : Type κ} (model_id : Text) (q : Option (Executor Float)) (o : Option ℕ)
    → is_some q ≡ is_some o
    → (elim q [
      | none ↦
          replies
            (record no_response { error = codes "model not registered in runtime: " ++ model_id })
      | some executor ↦ forwards model_id
    ])
      ≡ route_of model_id o
routes_by model_id none none e = refl
routes_by model_id none (some p) e = absurd (ground (arith, e))
routes_by model_id (some q) none e = absurd (ground (arith, e))
routes_by model_id (some q) (some p) e = refl

module _ {ℓ κ} {Module : Type ℓ} {Float : Type κ} (w : Models Module) where
  infer_async-by :
      (r : Runtime Float) (req : InferenceRequest Float) (o : Option ℕ)
      → r.is_stopped ≡ false
      → is_some (lookup req.model_id r.executors) ≡ is_some o
      → infer_async r req ≡ route_of req.model_id o
  unfolding infer_async
  infer_async-by r req o run e =
      rw run (routes_by req.model_id (lookup req.model_id r.executors) o e)

  -- The runtime that main makes.
  served :
      (cfg : RuntimeConfig) (req : InferenceRequest Float)
      → infer_async (register_ready w (list_models w) (make_runtime cfg)) req
        ≡ route_of req.model_id (lookup_ready w req.model_id)
  unfolding lookup list_models lookup_ready
  served cfg req =
      infer_async-by (register_ready w (list_models w) (make_runtime cfg)) req
        (lookup_ready w req.model_id)
        (register_ready-is_stopped w (make_runtime cfg) (list_models w))
        (register_ready-lookup w (make_runtime cfg) (list_models w) req.model_id
          ∙ lookup_ready-lists w req.model_id (lookup_ready w req.model_id) refl)

some-inj {ℓ} : {A : Type ℓ} {a b : A} → some a ≡ some b → a ≡ b
some-inj h = cc

module _ {ℓ κ} {Module : Type ℓ} {Float : Type κ} where
  going_on : Started Module Float → Option (Models Module × Runtime Float)
  going_on (aborts e) = none
  going_on (no_model what) = none
  going_on (started w r ext) = some (w, r)

  AllServed : Models Module × Runtime Float → Type κ
  AllServed (w, r) =
      (req : InferenceRequest Float)
      → infer_async r req ≡ route_of req.model_id (lookup_ready w req.model_id)

  after_scan-AllServed :
      (cfg : RuntimeConfig) (ext : ExtendedConfig) (s : Outcome LoadResult × Models Module)
      (p : Models Module × Runtime Float)
      → going_on (after_scan cfg ext s) ≡ some p
      → AllServed p
  unfolding after_scan going_on AllServed
  after_scan-AllServed cfg ext (throws e, w) p h = absurd (ground (arith, h))
  after_scan-AllServed cfg ext (ok result, w) p h = by_count (result.loaded == 0) h
    where
      by_count :
          (b : Bool)
          → going_on (
              if b
              then no_model (
                  codes "Server Error: No models were successfully loaded from repository: "
                  ++ ext.model_repository)
              else started w (register_ready w (list_models w) (make_runtime cfg)) ext)
            ≡ some p
          → AllServed p
      by_count true h' = absurd (ground (arith, h'))
      by_count false h' = subst AllServed (some-inj h') (served w cfg)

  after_settings-AllServed :
      (torch : TorchLoader Module) (directory : Text → Option (List RepoEntry))
      (cfg : Outcome RuntimeConfig) (ext : Outcome ExtendedConfig)
      (p : Models Module × Runtime Float)
      → going_on (after_settings torch directory cfg ext) ≡ some p
      → AllServed p
  unfolding after_settings going_on
  after_settings-AllServed torch directory (throws e) ext p h = absurd (ground (arith, h))
  after_settings-AllServed torch directory (ok cfg) (throws e) p h = absurd (ground (arith, h))
  after_settings-AllServed torch directory (ok cfg) (ok ext) p h =
      after_scan-AllServed cfg ext (scan_and_load torch (directory ext.model_repository) no_models)
        p h

  -- If the start succeeds, the runtime hands a request to an executor exactly if the registry has a
  -- model of the request's name that is ready, and answers all others with an error that names the
  -- model.
  pub start_up-infer_async :
      (torch : TorchLoader Module) (directory : Text → Option (List RepoEntry))
      (contents : Option Text) (w : Models Module) (r : Runtime Float) (ext : ExtendedConfig)
      (req : InferenceRequest Float)
      → start_up torch directory contents ≡ started w r ext
      → infer_async r req ≡ route_of req.model_id (lookup_ready w req.model_id)
  unfolding start_up going_on AllServed
  start_up-infer_async torch directory contents w r ext req h =
      after_settings-AllServed torch directory (Settings.from_file contents)
        (load_extended_config contents) (w, r) (ap going_on h) req
