-- ===== src/Inference/Torch/Answers.antt =====
-- What `infer_batch` answers, and what it writes to the buffers of the requests.
use mathlib.Core.Path.{subst}
use jellybean.Base.{
  ℕ, suc, ◌≤◌, ◌<◌, ◌≡◌, ◌⊎◌, inl, inr, refl, ap, arith, true, false, Option, none, some, List, [],
  ◌∷◌, ◌++◌, length, map, drop, copy_at-append, dec_lt, lt→ltb, ltb,
}
use jellybean.Base.Text.{Text, codes}
use jellybean.Base.Words.{u32}
use jellybean.Base.Dict.{lookup}
use jellybean.Inference.Types.{DeviceKind, InferenceRequest, InferenceResponse}
use jellybean.Inference.Torch.{TorchModel, TorchBackend}
use jellybean.Inference.Torch.Infer.{
  TorchResult, value, error, TorchOps, write_output, refused, write_chunks, answer_batch,
  run_module, input_tensors, output_chunks, batch_with, infer_batch, ◌>>=◌,
}

not_ltb : (a b : ℕ) → b ≤ a → ltb a b ≡ false
not_ltb a b h = ground arith

bind_value {ℓ κ} :
    {A : Type ℓ} {B : Type κ} (m : TorchResult A) (f : A → TorchResult B) (b : B)
    → (m >>= f) ≡ value b
    → (a : A) × (m ≡ value a) × (f a ≡ value b)
bind_value (value a) f b h = (a, refl, h)
bind_value (error e) f b h = cc

TorchResult-cases {ℓ} :
    {A : Type ℓ} (m : TorchResult A) → ((a : A) × (m ≡ value a)) ⊎ ((e : Text) × (m ≡ error e))
TorchResult-cases (value a) = inl (a, refl)
TorchResult-cases (error e) = inr (e, refl)

value-inj {ℓ} : {A : Type ℓ} {a b : A} → value a ≡ value b → a ≡ b
value-inj h = cc

module _ {Module Float Tensor : Type 0} (torch : TorchOps Module Float Tensor) where
  -- An answer with an error that leaves the buffer alone.
  abbrev pub Refused : Text → InferenceRequest Float → InferenceResponse × List Float → Type 0
  Refused e req (resp, buffer) =
      (resp.is_ok ≡ false)
      × (resp.error ≡ e)
      × (resp.output_elems_written ≡ 0)
      × (buffer ≡ req.output_buffer)

  -- An answer for the tensor `y`, which has its shape. If `y` fits the buffer it stands at the start
  -- of the buffer, the rest of the buffer is as before, and the answer tells how large it is.
  abbrev pub Holds : Tensor → InferenceRequest Float → InferenceResponse × List Float → Type 0
  Holds y req (resp, buffer) =
      (resp.shape ≡ torch.sizes y)
      × (((length req.output_buffer < length (torch.elements y))
            × Refused (codes "output buffer too small") req (resp, buffer))
          ⊎ ((length (torch.elements y) ≤ length req.output_buffer)
              × (resp.is_ok ≡ true)
              × (resp.output_elems_written ≡ u32 (length (torch.elements y)))
              × (buffer ≡ torch.elements y ++ drop (length (torch.elements y)) req.output_buffer)))

  abbrev pub AllRefused :
      Text → List (InferenceRequest Float) → List (InferenceResponse × List Float) → Type 0
  AllRefused e [] [] = Unit
  AllRefused e [] (a ∷ as') = ⊥
  AllRefused e (req ∷ reqs) [] = ⊥
  AllRefused e (req ∷ reqs) (a ∷ as') = Refused e req a × AllRefused e reqs as'

  -- The first answer is that of the first request for the first tensor, and so on.
  abbrev pub AllHold :
      List Tensor → List (InferenceRequest Float) → List (InferenceResponse × List Float) → Type 0
  AllHold ys [] [] = Unit
  AllHold ys [] (a ∷ as') = ⊥
  AllHold ys (req ∷ reqs) [] = ⊥
  AllHold [] (req ∷ reqs) (a ∷ as') = ⊥
  AllHold (y ∷ ys) (req ∷ reqs) (a ∷ as') = Holds y req a × AllHold ys reqs as'

  -- The tensors of the requests' inputs.
  abbrev pub AllBlobs : DeviceKind → List (InferenceRequest Float) → List Tensor → Type 0
  AllBlobs device [] [] = Unit
  AllBlobs device [] (x ∷ xs) = ⊥
  AllBlobs device (req ∷ reqs) [] = ⊥
  AllBlobs device (req ∷ reqs) (x ∷ xs) =
      (torch.from_blob req.input req.shape device ≡ value x) × AllBlobs device reqs xs

  -- The chunks `ys` of what the model makes of the inputs, put one behind the other: no call throws.
  abbrev pub Chunks : TorchModel Module → List (InferenceRequest Float) → List Tensor → Type 0
  Chunks st reqs ys =
      (xs : List Tensor) × (x y y' : Tensor) × AllBlobs st.device reqs xs
      × (torch.cat xs ≡ value x)
      × (run_module torch st.script_module x ≡ value y)
      × (torch.to_cpu y ≡ value y')
      × (torch.chunk y' (length reqs) ≡ value ys)

  -- One answer for each request, or no result for want of chunks.
  abbrev pub Written :
      List Tensor
      → List (InferenceRequest Float)
      → Option (List (InferenceResponse × List Float))
      → Type 0
  Written ys reqs o =
      ((length ys < length reqs) × (o ≡ none))
      ⊎ ((answers : List (InferenceResponse × List Float)) × (o ≡ some answers)
          × AllHold ys reqs answers)

  -- What a batch for a model comes to.
  abbrev pub Replies :
      TorchModel Module
      → List (InferenceRequest Float)
      → Option (List (InferenceResponse × List Float))
      → Type 0
  Replies st reqs o =
      ((ys : List Tensor) × Chunks st reqs ys × Written ys reqs o)
      ⊎ ((e : Text) × ((ys : List Tensor) → ¬ Chunks st reqs ys)
          × (answers : List (InferenceResponse × List Float)) × (o ≡ some answers)
          × AllRefused e reqs answers)

  write_output-Holds :
      (y : Tensor) (latency_ns : ℕ) (req : InferenceRequest Float)
      → Holds y req (write_output torch y latency_ns req)
  unfolding write_output
  write_output-Holds y latency_ns req =
      elim (dec_lt (length req.output_buffer) (length (torch.elements y))) [
        | yes small ↦ rw (lt→ltb _ _ small) (refl, inl (small, (refl, refl, refl, refl)))
        | no fits ↦
            let le : length (torch.elements y) ≤ length req.output_buffer = omega arith in
            rw (not_ltb _ _ le) (
              refl,
              inr (le, refl, refl, copy_at-append [] (torch.elements y) req.output_buffer le),
            )
      ]

  refused-AllRefused :
      (e : Text) (reqs : List (InferenceRequest Float))
      → AllRefused e reqs (map (refused torch e 0) reqs)
  refused-AllRefused e [] = tt
  refused-AllRefused e (req ∷ reqs) = ((refl, refl, refl, refl), refused-AllRefused e reqs)

  write_chunks-Written :
      (elapsed : ℕ → ℕ) (i : ℕ) (ys : List Tensor) (reqs : List (InferenceRequest Float))
      → Written ys reqs (write_chunks torch elapsed i ys reqs)
  unfolding write_chunks
  write_chunks-Written elapsed i ys [] = inr ([], refl, tt)
  write_chunks-Written elapsed i [] (req ∷ reqs) = inl (omega arith, refl)
  write_chunks-Written elapsed i (y ∷ ys) (req ∷ reqs) =
      elim (write_chunks-Written elapsed (suc i) ys reqs) [
        | inl (fewer, missing) ↦ inl (omega (arith, fewer), ap next missing)
        | inr (answers, there, all) ↦ inr (
          write_output torch y (elapsed i) req ∷ answers,
          ap next there,
          (write_output-Holds y (elapsed i) req, all),
        )
      ]
    where
      next :
          Option (List (InferenceResponse × List Float))
          → Option (List (InferenceResponse × List Float))
      next none = none
      next (some rest) = some (write_output torch y (elapsed i) req ∷ rest)

  module _ (st : TorchModel Module) (reqs : List (InferenceRequest Float)) where
    -- The rest of the `try` block behind each of its calls.
    abbrev after_module : Tensor → TorchResult (List Tensor)
    after_module y = torch.to_cpu y >>= λ y'. torch.chunk y' (length reqs)

    abbrev after_cat : Tensor → TorchResult (List Tensor)
    after_cat x = run_module torch st.script_module x >>= after_module

    abbrev after_inputs : List Tensor → TorchResult (List Tensor)
    after_inputs xs = torch.cat xs >>= after_cat

  input_tensors-AllBlobs :
      (device : DeviceKind) (reqs : List (InferenceRequest Float)) (xs : List Tensor)
      → input_tensors torch device reqs ≡ value xs
      → AllBlobs device reqs xs
  unfolding input_tensors
  input_tensors-AllBlobs device [] [] h = tt
  input_tensors-AllBlobs device [] (x ∷ xs) h = cc
  input_tensors-AllBlobs device (req ∷ reqs) zs h =
      let (x, first, h1) =
        bind_value (torch.from_blob req.input req.shape device)
          (λ x. input_tensors torch device reqs >>= λ xs. value (x ∷ xs)) zs h in
      let (xs, others, h2) =
        bind_value (input_tensors torch device reqs) (λ xs. value (x ∷ xs)) zs h1 in
      subst (AllBlobs device (req ∷ reqs)) (value-inj h2)
        (first, input_tensors-AllBlobs device reqs xs others)

  AllBlobs-input_tensors :
      (device : DeviceKind) (reqs : List (InferenceRequest Float)) (xs : List Tensor)
      → AllBlobs device reqs xs
      → input_tensors torch device reqs ≡ value xs
  unfolding input_tensors
  AllBlobs-input_tensors device [] [] h = refl
  AllBlobs-input_tensors device [] (x ∷ xs) h = absurd h
  AllBlobs-input_tensors device (req ∷ reqs) [] h = absurd h
  AllBlobs-input_tensors device (req ∷ reqs) (x ∷ xs) (first, others) =
      rw (first, AllBlobs-input_tensors device reqs xs others) refl

  output_chunks-Chunks :
      (st : TorchModel Module) (reqs : List (InferenceRequest Float)) (ys : List Tensor)
      → output_chunks torch st reqs ≡ value ys
      → Chunks st reqs ys
  unfolding output_chunks
  output_chunks-Chunks st reqs ys h =
      let (xs, i, h1) =
        bind_value (input_tensors torch st.device reqs) (after_inputs st reqs) ys h in
      let (x, c, h2) = bind_value (torch.cat xs) (after_cat st reqs) ys h1 in
      let (y, m, h3) =
        bind_value (run_module torch st.script_module x) (after_module st reqs) ys h2 in
      let (y', p, h4) = bind_value (torch.to_cpu y) (λ z. torch.chunk z (length reqs)) ys h3 in
      (xs, x, y, y', input_tensors-AllBlobs st.device reqs xs i, c, m, p, h4)

  Chunks-output_chunks :
      (st : TorchModel Module) (reqs : List (InferenceRequest Float)) (ys : List Tensor)
      → Chunks st reqs ys
      → output_chunks torch st reqs ≡ value ys
  unfolding output_chunks
  Chunks-output_chunks st reqs ys (xs, x, y, y', blobs, c, m, p, h) =
      rw (AllBlobs-input_tensors st.device reqs xs blobs, c, m, p) h

  answer_batch-Replies :
      (st : TorchModel Module) (reqs : List (InferenceRequest Float)) (elapsed : ℕ → ℕ)
      (o : TorchResult (List Tensor))
      → output_chunks torch st reqs ≡ o
      → Replies st reqs (answer_batch torch elapsed reqs o)
  unfolding answer_batch
  answer_batch-Replies st reqs elapsed (value ys) h =
      inl (ys, output_chunks-Chunks st reqs ys h, write_chunks-Written elapsed 0 ys reqs)
  answer_batch-Replies st reqs elapsed (error e) h = inr (
    e,
    λ ys chunks. let same = Chunks-output_chunks st reqs ys chunks in cc (same, h),
    map (refused torch e 0) reqs,
    refl,
    refused-AllRefused e reqs,
  )

  -- For a batch of requests to a model that is loaded: if none of LibTorch's calls throws, the first
  -- request is answered by the first of the chunks of the output, and so on, or by an error if the
  -- chunk is larger than its buffer, and a batch with fewer chunks than requests has no result, since
  -- the code then indexes behind the last chunk. If one throws, every request is answered by the same
  -- error and no buffer is written.
  pub infer_batch-Replies :
      (b : TorchBackend Module) (st : TorchModel Module) (first : InferenceRequest Float)
      (rest : List (InferenceRequest Float)) (elapsed : ℕ → ℕ)
      → lookup first.model_id b.models ≡ some st
      → Replies st (first ∷ rest) (infer_batch torch b (first ∷ rest) elapsed)
  unfolding infer_batch batch_with
  infer_batch-Replies b st first rest elapsed loaded =
      rw loaded (
        answer_batch-Replies st (first ∷ rest) elapsed (output_chunks torch st (first ∷ rest)) refl)
