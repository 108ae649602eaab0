-- ===== src/Inference/Runtime.antt =====
-- `InferenceRuntime` of include/jellybean/inference/runtime.hpp and src/inference/runtime.cpp, one call
-- at a time. `retired` are the executors that the runtime has let go of.
pub mod Lifetime
use jellybean.Base.{
  ℕ, Bool, true, false, not, Option, none, some, List, [], ◌∷◌, ◌++◌, map, if◌then◌else◌,
}
use jellybean.Base.Text.{Text, codes}
use jellybean.Base.Dict.{Dict, lookup, without}
use jellybean.Inference.Types.{InferenceRequest, InferenceResponse, no_response}
use jellybean.Inference.Settings.{RuntimeConfig}
use jellybean.Model.Executor.{Executor, make, start, stop}

pub record Runtime {ℓ} (Float : Type ℓ) : Type ℓ where
  pub cfg : RuntimeConfig
  pub executors : Dict (Executor Float)
  pub is_stopped : Bool
  pub retired : List (Executor Float)

-- What `infer_async` does: it answers by itself, or hands the request to an executor.
pub data Route : Type 0 where
  replies : InferenceResponse → Route
  forwards : Text → Route

module _ {ℓ} {Float : Type ℓ} where
  abbrev pub make_runtime : RuntimeConfig → Runtime Float
  make_runtime cfg = record { cfg = cfg; executors = []; is_stopped = false; retired = [] }

  -- `emplace`, with what the map has under the name. An executor that is not inserted is destroyed,
  -- which stops it.
  unfoldable pub emplace :
      Runtime Float → Text → Executor Float → Option (Executor Float) → Bool × Runtime Float
  unfolding stop
  emplace r model_id executor none =
      (true, record r { executors = (model_id, executor) ∷ r.executors })
  emplace r model_id executor (some old) = (false, record r { retired = stop executor ∷ r.retired })

  -- `is_ready` tells of a pointer that is not null to metadata that is ready.
  unfoldable pub register_model : Runtime Float → Text → Bool → Bool × Runtime Float
  unfolding emplace start make
  register_model r model_id is_ready =
      if not is_ready
      then (false, r)
      else emplace r model_id (start (make r.cfg.worker_threads)) (lookup model_id r.executors)

  -- What `find` gives is erased and stopped.
  unfoldable pub erase_found : Runtime Float → Text → Option (Executor Float) → Bool × Runtime Float
  unfolding stop
  erase_found r model_id none = (false, r)
  erase_found r model_id (some executor) = (
    true,
    record r { executors = without model_id r.executors; retired = stop executor ∷ r.retired },
  )

  unfoldable pub unregister_model : Runtime Float → Text → Bool × Runtime Float
  unfolding erase_found
  unregister_model r model_id = erase_found r model_id (lookup model_id r.executors)

  unfoldable pub infer_async : Runtime Float → InferenceRequest Float → Route
  infer_async r req =
      if r.is_stopped
      then replies (record no_response { error = codes "runtime stopped" })
      else elim (lookup req.model_id r.executors) [
        | none ↦ replies (record no_response {
          error = codes "model not registered in runtime: " ++ req.model_id;
        })
        | some executor ↦ forwards req.model_id
      ]

  -- The loop of `shutdown` over the executors that it has taken.
  unfoldable pub stop_all : Dict (Executor Float) → List (Executor Float)
  unfolding stop
  stop_all [] = []
  stop_all ((id, executor) ∷ rest) = stop executor ∷ stop_all rest

  -- The destructor calls it too.
  unfoldable pub shutdown : Runtime Float → Runtime Float
  unfolding stop_all
  shutdown r = if r.is_stopped then r else record r {
    is_stopped = true;
    executors = [];
    retired = stop_all r.executors ++ r.retired;
  }
