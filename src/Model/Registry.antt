-- ===== src/Model/Registry.antt =====
-- `ModelMetadata` of include/jellybean/model/model_metadata.hpp and `ModelRegistry` of
-- src/model/model_registry.cpp, one call at a time. Pointers to metadata are numbers, and the objects
-- that the registry owns stand in a store: a pointer whose object is destroyed finds nothing there.
pub mod Laws
use jellybean.Base.{
  ℕ, zero, suc, ◌+◌, ◌==◌, Bool, true, false, Option, none, some, List, [], ◌∷◌, length,
  if◌then◌else◌,
}
use jellybean.Base.Text.{Text, codes}
use jellybean.Base.Int.{ℤ}
use jellybean.Base.Dict.{Dict, lookup, without}
use jellybean.Model.Config.{ModelConfig}
use jellybean.Inference.Torch.{TorchBackend}

pub data ModelState : Type 0 where
  unloaded loading ready failed unloading : ModelState

unfoldable pub model_state_str : ModelState → Text
model_state_str unloaded = codes "UNLOADED"
model_state_str loading = codes "LOADING"
model_state_str ready = codes "READY"
model_state_str failed = codes "FAILED"
model_state_str unloading = codes "UNLOADING"

-- The objects behind the pointers to backends are of the one class that implements the interface.
pub record ModelMetadata {ℓ} (Module : Type ℓ) : Type ℓ where
  pub config : ModelConfig
  pub state : ModelState
  pub backend : Option (TorchBackend Module)

abbrev pub is_ready_state : ModelState → Bool
is_ready_state ready = true
is_ready_state _ = false

abbrev pub is_ready {ℓ} : {Module : Type ℓ} → ModelMetadata Module → Bool
is_ready m = is_ready_state m.state

pub record ModelInfo : Type 0 where
  pub name : Text
  pub state : ModelState
  pub version : ℤ

-- The registry, the objects it owns, and the address that the next object gets.
pub record Models {ℓ} (Module : Type ℓ) : Type ℓ where
  pub models : Dict ℕ
  pub object : ℕ → Option (ModelMetadata Module)
  pub next : ℕ

module _ {ℓ} {Module : Type ℓ} where
  abbrev pub no_models : Models Module
  no_models = record { models = []; object = λ p. none; next = 0 }

  abbrev pub put :
      (ℕ → Option (ModelMetadata Module))
      → ℕ
      → Option (ModelMetadata Module)
      → ℕ
      → Option (ModelMetadata Module)
  put object p m q = if p == q then m else object q

  -- `std::make_unique<ModelMetadata>`: the address of the object, which the caller owns.
  unfoldable pub make_unique : Models Module → ℕ × Models Module
  make_unique w = (w.next, record w { next = w.next + 1 })

  -- A unique pointer is its address and the object, or null. An object that is not inserted is
  -- destroyed with the argument.
  unfoldable pub register_model :
      Models Module → Option (ℕ × ModelMetadata Module) → Bool × Models Module
  register_model w none = (false, w)
  register_model w (some (p, meta)) = elim (lookup meta.config.name w.models) [
    | some q ↦ (false, w)
    | none ↦ (
      true,
      record w { models = (meta.config.name, p) ∷ w.models; object = put w.object p (some meta) },
    )
  ]

  unfoldable pub find_model : Models Module → Text → Option ℕ
  find_model w model_id = lookup model_id w.models

  -- `lookup` and then `is_ready` of the object.
  unfoldable pub lookup_ready : Models Module → Text → Option ℕ
  unfolding find_model
  lookup_ready w model_id = elim (find_model w model_id) [
    | none ↦ none
    | some p ↦ elim (w.object p) [ none ↦ none | some m ↦ if is_ready m then some p else none ]
  ]

  -- The object goes to the caller, out of the registry's store.
  unfoldable pub unregister :
      Models Module → Text → Option (ℕ × ModelMetadata Module) × Models Module
  unregister w model_id = elim (lookup model_id w.models) [
    | none ↦ (none, w)
    | some p ↦ elim (w.object p) [
      | none ↦ (none, w)
      | some m ↦ (
        some (p, m),
        record w { models = without model_id w.models; object = put w.object p none },
      )
    ]
  ]

  abbrev pub infos : (ℕ → Option (ModelMetadata Module)) → Dict ℕ → List ModelInfo
  infos object [] = []
  infos object ((id, p) ∷ rest) = elim (object p) [
    | none ↦ infos object rest
    | some m ↦ record { name = id; state = m.state; version = m.config.version } ∷ infos object rest
  ]

  unfoldable pub list_models : Models Module → List ModelInfo
  list_models w = infos w.object w.models

  -- Through a pointer to an object: the change of its state, and of its backend with it.
  unfoldable pub store_state : Models Module → ℕ → ModelState → Models Module
  store_state w p state = elim (w.object p) [
    | none ↦ w
    | some m ↦ record w { object = put w.object p (some (record m { state = state })) }
  ]

  unfoldable pub store_backend : Models Module → ℕ → TorchBackend Module → Models Module
  store_backend w p b = elim (w.object p) [
    | none ↦ w
    | some m ↦ record w { object = put w.object p (some (record m { backend = some b })) }
  ]

  -- `size`
  unfoldable pub count_models : Models Module → ℕ
  count_models w = length w.models
