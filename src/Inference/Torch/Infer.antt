-- ===== src/Inference/Torch/Infer.antt =====
-- `infer` and `infer_batch` of `TorchBackend` in src/inference/torch_backend.cpp. The calls of LibTorch
-- are fields of `TorchOps`; a call that throws answers with the text of its exception.
use jellybean.Base.{
  ℕ, suc, true, Option, none, some, List, [], ◌∷◌, ◌++◌, length, map, copy_at, ltb, if◌then◌else◌,
}
use jellybean.Base.Text.{Text, codes}
use jellybean.Base.Int.{ℤ}
use jellybean.Base.Words.{u32}
use jellybean.Base.Dict.{lookup}
use jellybean.Inference.Types.{DeviceKind, InferenceRequest, InferenceResponse, no_response}
use jellybean.Inference.Torch.{TorchModel, TorchBackend}

pub data TorchResult {ℓ} (A : Type ℓ) : Type ℓ where
  value : A → TorchResult A
  error : Text → TorchResult A

infixl 5 ◌>>=◌
abbrev pub ◌>>=◌ {ℓ κ} :
    {A : Type ℓ} {B : Type κ} → TorchResult A → (A → TorchResult B) → TorchResult B
value a >>= f = f a
error e >>= f = error e

-- `from_blob` with its `clone` and `to`, `cat` along the first dimension, `forward`, the default
-- operation, `to(kCPU).contiguous()`, `chunk` along the first dimension, and what a tensor holds.
pub record TorchOps {ℓ} (Module Float Tensor : Type ℓ) : Type ℓ where
  pub from_blob : List Float → List ℤ → DeviceKind → TorchResult Tensor
  pub cat : List Tensor → TorchResult Tensor
  pub forward : Module → Tensor → TorchResult Tensor
  pub relu_affine : Tensor → TorchResult Tensor
  pub to_cpu : Tensor → TorchResult Tensor
  pub chunk : Tensor → ℕ → TorchResult (List Tensor)
  pub sizes : Tensor → List ℤ
  pub elements : Tensor → List Float

module _ {ℓ} {Module Float Tensor : Type ℓ} (torch : TorchOps Module Float Tensor) where
  open torch use {from_blob, cat, forward, relu_affine, to_cpu, chunk, sizes, elements}

  abbrev pub run_module : Option Module → Tensor → TorchResult Tensor
  run_module (some m) x = forward m x
  run_module none x = relu_affine x

  -- The answer for an output tensor, and the request's buffer afterwards.
  unfoldable pub write_output : Tensor → ℕ → InferenceRequest Float → InferenceResponse × List Float
  write_output y latency_ns req =
      let numel = length (elements y) in
      if ltb (length req.output_buffer) numel
      then (
        record no_response {
          shape = sizes y;
          error = codes "output buffer too small";
          latency_ns = latency_ns;
        },
        req.output_buffer,
      )
      else (
        record no_response {
          shape = sizes y;
          output_elems_written = u32 numel;
          is_ok = true;
          latency_ns = latency_ns;
        },
        copy_at 0 (elements y) req.output_buffer,
      )

  abbrev pub refused : Text → ℕ → InferenceRequest Float → InferenceResponse × List Float
  refused e latency_ns req =
      (record no_response { error = e; latency_ns = latency_ns }, req.output_buffer)

  abbrev pub not_loaded : Text → Text
  not_loaded model_id = codes "model not loaded: " ++ model_id

  abbrev pub output_tensor : TorchModel Module → InferenceRequest Float → TorchResult Tensor
  output_tensor st req = do
    x ← from_blob req.input req.shape st.device
    y ← run_module st.script_module x
    to_cpu y

  -- `elapsed` is what the clock shows at the end.
  unfoldable pub infer :
      TorchBackend Module → InferenceRequest Float → ℕ → InferenceResponse × List Float
  unfolding write_output
  infer b req elapsed = elim (lookup req.model_id b.models) [
    | none ↦ refused (not_loaded req.model_id) 0 req
    | some st ↦ elim (output_tensor st req) [
      | error e ↦ refused e elapsed req
      | value y ↦ write_output y elapsed req
    ]
  ]

  unfoldable pub input_tensors :
      DeviceKind → List (InferenceRequest Float) → TorchResult (List Tensor)
  input_tensors device [] = value []
  input_tensors device (req ∷ reqs) = do
    x ← from_blob req.input req.shape device
    xs ← input_tensors device reqs
    value (x ∷ xs)

  -- The `try` block of `infer_batch` up to its second loop.
  unfoldable pub output_chunks :
      TorchModel Module → List (InferenceRequest Float) → TorchResult (List Tensor)
  unfolding input_tensors
  output_chunks st batch = do
    xs ← input_tensors st.device batch
    x ← cat xs
    y ← run_module st.script_module x
    y' ← to_cpu y
    chunk y' (length batch)

  -- The second loop, from the request `i` on; `none` is a chunk that is not there.
  unfoldable pub write_chunks :
      (ℕ → ℕ)
      → ℕ
      → List Tensor
      → List (InferenceRequest Float)
      → Option (List (InferenceResponse × List Float))
  unfolding write_output
  write_chunks elapsed i chunks [] = some []
  write_chunks elapsed i [] (req ∷ reqs) = none
  write_chunks elapsed i (y ∷ ys) (req ∷ reqs) = elim (write_chunks elapsed (suc i) ys reqs) [
    | none ↦ none
    | some rest ↦ some (write_output y (elapsed i) req ∷ rest)
  ]

  unfoldable pub answer_batch :
      (ℕ → ℕ)
      → List (InferenceRequest Float)
      → TorchResult (List Tensor)
      → Option (List (InferenceResponse × List Float))
  unfolding write_chunks
  answer_batch elapsed batch (error e) = some (map (refused e 0) batch)
  answer_batch elapsed batch (value chunks) = write_chunks elapsed 0 chunks batch

  -- With the model that the first request names.
  unfoldable pub batch_with :
      Option (TorchModel Module)
      → Text
      → List (InferenceRequest Float)
      → (ℕ → ℕ)
      → Option (List (InferenceResponse × List Float))
  unfolding answer_batch output_chunks
  batch_with none model_id batch elapsed = some (map (refused (not_loaded model_id) 0) batch)
  batch_with (some st) model_id batch elapsed = answer_batch elapsed batch (output_chunks st batch)

  unfoldable pub infer_batch :
      TorchBackend Module
      → List (InferenceRequest Float)
      → (ℕ → ℕ)
      → Option (List (InferenceResponse × List Float))
  unfolding batch_with
  infer_batch b [] elapsed = some []
  infer_batch b (first ∷ rest) elapsed =
      batch_with (lookup first.model_id b.models) first.model_id (first ∷ rest) elapsed
