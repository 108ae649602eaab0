-- ===== src/Checks/Inference.antt =====
-- The runtime and the Torch backend on a model that doubles what it is given.
use jellybean.Base.{
  ℕ, ◌≡◌, ◌*◌, zero, suc, Option, none, some, refl, true, List, [], ◌∷◌, ◌++◌, map, length,
}
use jellybean.Base.Text.{codes}
use jellybean.Base.Dict.{lookup}
use jellybean.Base.Int.{pos}
use jellybean.Inference.Types.{InferenceRequest, InferenceResponse, cpu}
use jellybean.Inference.Settings.{default_runtime}
use jellybean.Inference.Torch.{TorchModel, TorchBackend}
use jellybean.Inference.Torch.Infer.{value, TorchOps, infer_batch}
use jellybean.Inference.Torch.Answers.{Replies, infer_batch-Replies}
use jellybean.Inference.Runtime.{make_runtime, infer_async}
use jellybean.Inference.Runtime.Lifetime.{
  Call, register, unregister, shut, calls, RunsFor, infer_async-RunsFor,
}

-- Tensors are lists of numbers; a tensor of n parts is cut into its elements.
abbrev singles : List ℕ → ℕ → List (List ℕ)
singles y zero = []
singles [] (suc n) = [] ∷ singles [] n
singles (a ∷ y) (suc n) = (a ∷ []) ∷ singles y n

abbrev join_all : List (List ℕ) → List ℕ
join_all [] = []
join_all (x ∷ xs) = x ++ join_all xs

abbrev torch : TorchOps ℕ ℕ (List ℕ)
torch = record {
  from_blob = λ input shape device. value input;
  cat = λ xs. value (join_all xs);
  forward = λ m x. value (map (λ a. m * a) x);
  relu_affine = λ x. value x;
  to_cpu = λ x. value x;
  chunk = λ y n. value (singles y n);
  sizes = λ y. pos (length y) ∷ [];
  elements = λ y. y;
}

abbrev request : ℕ → InferenceRequest ℕ
request a = record {
  model_id = codes "double";
  shape = pos 1 ∷ [];
  input = a ∷ [];
  output_buffer = 0 ∷ 0 ∷ [];
  device = cpu;
}

abbrev doubling : TorchModel ℕ
doubling = record { script_module = some 2; device = cpu }

abbrev backend : TorchBackend ℕ
backend = record { models = (codes "double", doubling) ∷ [] }

abbrev both_requests : List (InferenceRequest ℕ)
both_requests = request 4 ∷ request 5 ∷ []

abbrev after : Option (List (InferenceResponse × List ℕ)) → List (List ℕ)
after none = []
after (some as') = map (λ a. a.1) as'

buffers :
    after (infer_batch torch backend both_requests (λ i. i)) ≡ ((8 ∷ 0 ∷ []) ∷ (10 ∷ 0 ∷ []) ∷ [])
unfolding infer_batch lookup
buffers = refl

infer_batch-Replies_example :
    Replies torch doubling both_requests (infer_batch torch backend both_requests (λ i. i))
unfolding lookup
infer_batch-Replies_example =
    infer_batch-Replies torch backend doubling (request 4) (request 5 ∷ []) (λ i. i) refl

abbrev day : List Call
day =
    register (codes "a") true
    ∷ register (codes "a") true
    ∷ register (codes "b") true
    ∷ unregister (codes "b")
    ∷ shut
    ∷ []

infer_async-RunsFor_example :
    RunsFor day
      (calls (make_runtime default_runtime) day)
      (request 4)
      (infer_async (calls (make_runtime default_runtime) day) (request 4))
infer_async-RunsFor_example = infer_async-RunsFor default_runtime day (request 4)
