-- ===== src/Inference/Torch.antt =====
-- `TorchBackend` of src/inference/torch_backend.cpp: the models that it holds. LibTorch is no code of
-- the repository: `cuda_is_available` and `jit_load` are arguments, and a module is of any type.
pub mod Infer
pub mod Answers
use jellybean.Base.{Bool, true, false, not, ◌&&◌, Option, none, some, List, [], ◌∷◌, if◌then◌else◌}
use jellybean.Base.Text.{Text, is_empty}
use jellybean.Base.Dict.{Dict, lookup, without}
use jellybean.Inference.Types.{DeviceKind, cpu, cuda}

-- `struct ModelState`: a module, if the model has one, and its device.
pub record TorchModel {ℓ} (Module : Type ℓ) : Type ℓ where
  pub script_module : Option Module
  pub device : DeviceKind

pub record TorchBackend {ℓ} (Module : Type ℓ) : Type ℓ where
  pub models : Dict (TorchModel Module)

abbrev pub make_torch_backend {ℓ} : {Module : Type ℓ} → TorchBackend Module
make_torch_backend = record { models = [] }

-- What of LibTorch a load calls: `none` is an exception.
pub record TorchLoader {ℓ} (Module : Type ℓ) : Type ℓ where
  pub cuda_is_available : Bool
  pub jit_load : Text → DeviceKind → Option Module

abbrev device_for : Bool → DeviceKind → DeviceKind
device_for available cpu = cpu
device_for available cuda = if available then cuda else cpu

module _ {ℓ} {Module : Type ℓ} where
  abbrev hold : TorchBackend Module → Text → TorchModel Module → TorchBackend Module
  hold b model_id st = record { models = (model_id, st) ∷ b.models }

  unfoldable pub load :
      TorchLoader Module
      → TorchBackend Module
      → Text
      → Text
      → DeviceKind
      → Bool × TorchBackend Module
  load torch b model_id model_path device =
      let device' = device_for torch.cuda_is_available device in
      elim (lookup model_id b.models) [
        | some st ↦ (true, b)
        | none ↦
            if is_empty model_path
            then (true, hold b model_id (record { script_module = none; device = device' }))
            else elim (torch.jit_load model_path device') [
              | none ↦ (false, b)
              | some m ↦
                  (true, hold b model_id (record { script_module = some m; device = device' }))
            ]
      ]

  unfoldable pub unload : TorchBackend Module → Text → Bool × TorchBackend Module
  unload b model_id = elim (lookup model_id b.models) [
    | none ↦ (false, b)
    | some st ↦ (true, record { models = without model_id b.models })
  ]
