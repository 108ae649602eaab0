-- ===== src/Server/Session.antt =====
-- `session` of src/server/main.cpp: the requests of one client, one after the other. The answers of
-- `InferenceRuntime` are an argument, numbered by the requests, and so are the flag `g_running` and
-- which buffers can be allocated. A float is its 32 bits.
pub mod Queries
pub mod Replies
pub mod Turns
pub mod Answers
use jellybean.Base.{
  ℕ, zero, suc, ◌+◌, ◌-◌, ◌*◌, Bool, true, false, not, ◌&&◌, Option, none, some, List, [], ◌∷◌,
  ◌++◌, length, take, drop, replicate, ltb, if◌then◌else◌,
}
use jellybean.Base.Words.{le_bytes, of_le_bytes}
use jellybean.Inference.Types.{InferenceRequest, InferenceResponse}
use jellybean.Net.Socket.{Kernel, ReadResult, read_bytes, read_error, read, write}
use jellybean.Server.Settings.{ExtendedConfig}

abbrev pub max_elems : ℕ
max_elems = 100000000

-- A vector of floats in memory.
abbrev pub float_bytes : List ℕ → List ℕ
float_bytes [] = []
float_bytes (f ∷ fs) = le_bytes 4 f ++ float_bytes fs

abbrev pub to_floats : ℕ → List ℕ → List ℕ
to_floats zero bs = []
to_floats (suc n) bs = of_le_bytes (take 4 bs) ∷ to_floats n (drop 4 bs)

-- What a round of the loop does: it answers by these writes, it leaves the loop, or it throws.
pub data Turn : Type 0 where
  replies : List (List ℕ) → Turn
  hangs_up : Turn
  throws_error : Turn

-- How a session ends: by its client or a failed read, by an exception, by `g_running`; or it goes on.
pub data Ending : Type 0 where
  hung_up threw stopped goes_on : Ending

abbrev pub status_byte : Bool → List ℕ
status_byte true = 1 ∷ []
status_byte false = 0 ∷ []

-- The writes for a response and the output buffer.
unfoldable pub reply_parts : InferenceResponse × List ℕ → List (List ℕ)
reply_parts (resp, output_buf) =
    status_byte resp.is_ok
    ∷ le_bytes 8 resp.latency_ns
    ∷ le_bytes 4 resp.output_elems_written
    ∷ (if resp.is_ok && ltb 0 resp.output_elems_written
        then float_bytes (take resp.output_elems_written output_buf) ∷ []
        else [])

module _ {S : Type 0} (kernel : Kernel S) where
  unfoldable pub send_parts : List (List ℕ) → S → S
  unfolding write
  send_parts [] s = s
  send_parts (part ∷ parts) s = send_parts parts (write kernel part s)

  abbrev pub with_bytes : List ℕ → Option (List ℕ) × S → Option (List ℕ) × S
  with_bytes bs (none, s) = (none, s)
  with_bytes bs (some cs, s) = (some (bs ++ cs), s)

  -- A round of the loop that reads the payload.
  abbrev pub payload_round :
      (List ℕ → S → Option (List ℕ) × S) → ReadResult × S → Option (List ℕ) × S
  payload_round more (read_error, s) = (none, s)
  payload_round more (read_bytes [], s) = (none, s)
  payload_round more (read_bytes (b ∷ bs), s) = with_bytes (b ∷ bs) (more (b ∷ bs) s)

  -- The loop, with the bytes that are left to read.
  unfoldable pub read_payload : ℕ → ℕ → S → Option (List ℕ) × S
  unfolding read
  read_payload zero want s = (some [], s)
  read_payload (suc rounds) zero s = (some [], s)
  read_payload (suc rounds) (suc want) s =
      payload_round (λ bs s'. read_payload rounds (suc want - length bs) s')
        (read kernel (suc want) s)

module _ {S : Type 0} where
  abbrev pub after_turn :
      (S → (Ending × List (List ℕ)) × S) → Turn × S → (Ending × List (List ℕ)) × S
  after_turn more (replies parts, s) =
      let ((ending, sent), s') = more s in ((ending, parts ++ sent), s')
  after_turn more (hangs_up, s) = ((hung_up, []), s)
  after_turn more (throws_error, s) = ((threw, []), s)

module _ {S : Type 0} (kernel : Kernel S) (config : ExtendedConfig) (running resizes : ℕ → Bool)
    (infer : ℕ → InferenceRequest ℕ → InferenceResponse × List ℕ) where
  abbrev pub request_of : List ℕ → ℕ → List ℕ → InferenceRequest ℕ
  request_of model_id elems bytes = record {
    model_id = model_id;
    shape = config.input_shape;
    input = to_floats elems bytes;
    output_buffer = replicate elems 0;
    device = config.device;
  }

  unfoldable pub after_payload : ℕ → List ℕ → ℕ → Option (List ℕ) × S → Turn × S
  unfolding reply_parts send_parts
  after_payload k model_id elems (none, s) = (hangs_up, s)
  after_payload k model_id elems (some bytes, s) =
      if not (resizes elems)
      then (throws_error, s)
      else let parts = reply_parts (infer k (request_of model_id elems bytes)) in
        (replies parts, send_parts kernel parts s)

  unfoldable pub after_elems : ℕ → List ℕ → ReadResult × S → Turn × S
  unfolding after_payload read_payload
  after_elems k model_id (read_error, s) = (hangs_up, s)
  after_elems k model_id (read_bytes [], s) = (hangs_up, s)
  after_elems k model_id (read_bytes (b ∷ bs), s) =
      let elems = of_le_bytes (b ∷ bs) in
      if ltb max_elems elems
      then (throws_error, s)
      else if not (resizes elems)
      then (throws_error, s)
      else after_payload k model_id elems (read_payload kernel (elems * 4) (elems * 4) s)

  -- The string has its length already: bytes that were not read are 0.
  unfoldable pub after_id : ℕ → ℕ → ReadResult × S → Turn × S
  unfolding after_elems read
  after_id k len (read_error, s) = (hangs_up, s)
  after_id k len (read_bytes [], s) = (hangs_up, s)
  after_id k len (read_bytes (b ∷ bs), s) =
      after_elems k ((b ∷ bs) ++ replicate (len - length (b ∷ bs)) 0) (read kernel 4 s)

  unfoldable pub after_length : ℕ → ReadResult × S → Turn × S
  unfolding after_id read
  after_length k (read_error, s) = (hangs_up, s)
  after_length k (read_bytes [], s) = (hangs_up, s)
  after_length k (read_bytes (len ∷ bs), s) = after_id k len (read kernel len s)

  unfoldable pub turn : ℕ → S → Turn × S
  unfolding after_length read
  turn k s = after_length k (read kernel 1 s)

  -- The session from the request `k` on, for so many rounds: how it ends, and what it writes.
  unfoldable pub session : ℕ → ℕ → S → (Ending × List (List ℕ)) × S
  unfolding turn
  session zero k s = ((goes_on, []), s)
  session (suc rounds) k s =
      if running k then after_turn (session rounds (k + 1)) (turn k s) else ((stopped, []), s)
