-- ===== src/Inference/Types.antt =====
-- include/jellybean/inference/types.hpp. A span is the list of its elements; floats are of any type.
use jellybean.Base.{ℕ, Bool, false, List, []}
use jellybean.Base.Text.{Text}
use jellybean.Base.Int.{ℤ}

pub data DeviceKind : Type 0 where
  cpu cuda : DeviceKind

pub record InferenceRequest {ℓ} (Float : Type ℓ) : Type ℓ where
  pub model_id : Text
  pub shape : List ℤ
  pub input : List Float
  pub output_buffer : List Float
  pub device : DeviceKind

pub record InferenceResponse : Type 0 where
  pub is_ok : Bool
  pub error : Text
  pub shape : List ℤ
  pub output_elems_written : ℕ
  pub latency_ns : ℕ
  pub routing_ns : ℕ
  pub queue_wait_ns : ℕ
  pub execution_ns : ℕ
  pub send_ns : ℕ

-- The members' initializers.
abbrev pub no_response : InferenceResponse
no_response = record {
  is_ok = false;
  error = [];
  shape = [];
  output_elems_written = 0;
  latency_ns = 0;
  routing_ns = 0;
  queue_wait_ns = 0;
  execution_ns = 0;
  send_ns = 0;
}
