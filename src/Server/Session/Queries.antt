-- ===== src/Server/Session/Queries.antt =====
-- The requests of a client, in bytes, and the reads and writes of a session for one.
use mathlib.Core.Path.{subst}
use jellybean.Base.{
  ℕ, zero, suc, ◌+◌, ◌-◌, ◌*◌, ◌^◌, ◌≤◌, ◌<◌, ◌≡◌, refl, sym, ap, ◌∙◌, arith, Bool, true, false,
  some, List, [], ◌∷◌, ◌++◌, append-nil, append_assoc, length, replicate, take,
}
use jellybean.Base.Words.{le_bytes, of_le_bytes-le_bytes}
use jellybean.Inference.Types.{InferenceRequest, InferenceResponse}
use jellybean.Net.Socket.{Kernel, write}
use jellybean.Net.Socket.Delivery.{Delivery, Peer, reading, read-Arrived}
use jellybean.Server.Settings.{ExtendedConfig}
use jellybean.Server.Session.{
  max_elems, to_floats, send_parts, with_bytes, payload_round, read_payload,
}

-- A request of the client, as docs/wire_protocol.md lays it out.
pub record Query : Type 0 where
  pub model_id : List ℕ
  pub floats : List ℕ

abbrev pub head_bytes : List ℕ → ℕ → List ℕ
head_bytes model_id elems = length model_id ∷ (model_id ++ le_bytes 4 elems)

-- Floats on the wire: four bytes each, lowest first.
abbrev pub wire_floats : List ℕ → List ℕ
wire_floats [] = []
wire_floats (f ∷ fs) = le_bytes 4 f ++ wire_floats fs

abbrev pub query_bytes : Query → List ℕ
query_bytes q = head_bytes q.model_id (length q.floats) ++ wire_floats q.floats

abbrev pub AllFloats : List ℕ → Type 0
AllFloats [] = Unit
AllFloats (f ∷ fs) = (f < 2 ^ 32) × AllFloats fs

pub record IsQuery (resizes : ℕ → Bool) (q : Query) : Type 0 where
  pub named : 0 < length q.model_id
  pub bounded : length q.floats ≤ max_elems
  pub words : AllFloats q.floats
  pub room : resizes (length q.floats) ≡ true

abbrev pub AllQueries : (ℕ → Bool) → List Query → Type 0
AllQueries resizes [] = Unit
AllQueries resizes (q ∷ qs) = IsQuery resizes q × AllQueries resizes qs

pub length-wire_floats : (fs : List ℕ) → length (wire_floats fs) ≡ length fs * 4
length-wire_floats [] = refl
length-wire_floats (f ∷ fs) = omega (arith, length-wire_floats fs)

pub to_floats-wire_floats :
    (fs : List ℕ) → AllFloats fs → to_floats (length fs) (wire_floats fs) ≡ fs
to_floats-wire_floats [] h = refl
to_floats-wire_floats (f ∷ fs) h =
    rw (of_le_bytes-le_bytes 4 f (omega (arith, h.0)))
      (ap (λ l. f ∷ l) (to_floats-wire_floats fs h.1))

abbrev pub all_bytes : List Query → List ℕ
all_bytes [] = []
all_bytes (q ∷ qs) = query_bytes q ++ all_bytes qs

module _ (config : ExtendedConfig) where
  -- What the runtime is asked for a request.
  abbrev pub asked : Query → InferenceRequest ℕ
  asked q = record {
    model_id = q.model_id;
    shape = config.input_shape;
    input = q.floats;
    output_buffer = replicate (length q.floats) 0;
    device = config.device;
  }

-- A reply as docs/wire_protocol.md lays it out: whether it is in order, the latency, the number of
-- floats, and that many floats, which only a reply in order has.
abbrev pub reply_bytes : Bool → ℕ → ℕ → List ℕ → List ℕ
reply_bytes true latency_ns elems output =
    1 ∷ (le_bytes 8 latency_ns ++ (le_bytes 4 elems ++ wire_floats (take elems output)))
reply_bytes false latency_ns elems output = 0 ∷ (le_bytes 8 latency_ns ++ le_bytes 4 elems)

abbrev pub reply_of : InferenceResponse × List ℕ → List ℕ
reply_of (resp, output) = reply_bytes resp.is_ok resp.latency_ns resp.output_elems_written output

-- What is written, one write behind the other.
abbrev pub concat : List (List ℕ) → List ℕ
concat [] = []
concat (part ∷ parts) = part ++ concat parts

module _ (config : ExtendedConfig)
    (infer : ℕ → InferenceRequest ℕ → InferenceResponse × List ℕ) where
  -- What the protocol has a client receive for its requests: the replies to what the runtime answers.
  abbrev pub all_replies : ℕ → List Query → List ℕ
  all_replies k [] = []
  all_replies k (q ∷ qs) = reply_of (infer k (asked config q)) ++ all_replies (k + 1) qs

module _ {S : Type 0} (kernel : Kernel S) (peer : Delivery kernel) where
  open peer use {Arrived}

  read_payload-zero : (rounds n : ℕ) (s : S) → n ≡ 0 → read_payload kernel rounds n s ≡ (some [], s)
  unfolding read_payload
  read_payload-zero zero n s e = refl
  read_payload-zero (suc rounds) zero s e = refl
  read_payload-zero (suc rounds) (suc n) s e = absurd (omega (arith, e))

  pub read_payload-Arrived :
      (rounds : ℕ) (s : S) (xs ys : List ℕ)
      → length xs ≤ rounds
      → Arrived s (xs ++ ys)
      → (s' : S) × (read_payload kernel rounds (length xs) s ≡ (some xs, s')) × Arrived s' ys
  unfolding read_payload
  read_payload-Arrived rounds s [] ys le a = (s, read_payload-zero rounds 0 s refl, a)
  read_payload-Arrived zero s (x ∷ xs) ys le a = absurd (omega (arith, le))
  read_payload-Arrived (suc rounds) s (x ∷ xs) ys le a =
      let (s', all, a') = read-Arrived kernel peer (suc (length xs)) s (x ∷ xs) ys refl a in
      (
        s',
        ap
              (payload_round kernel
                (λ bs t. read_payload kernel rounds (suc (length xs) - length bs) t))
              all
            ∙ ap (with_bytes kernel (x ∷ xs))
                (read_payload-zero rounds (suc (length xs) - suc (length xs)) s' (omega arith))
            ∙ ap (λ l. (some l, s')) (append-nil (x ∷ xs)),
        a',
      )

pub send_parts-Arrived :
    {S : Type 0} (kernel : Kernel S) (peer : Peer kernel) (parts : List (List ℕ)) (s : S)
    (ys out : List ℕ)
    → (reading peer out).Arrived s ys
    → (reading peer (out ++ concat parts)).Arrived (send_parts kernel parts s) ys
unfolding send_parts write
send_parts-Arrived kernel peer [] s ys out a = (a.0, a.1 ∙ sym (append-nil out))
send_parts-Arrived kernel peer (part ∷ parts) s ys out a =
    subst (λ l. (reading peer l).Arrived (send_parts kernel parts (kernel.send part s)) ys)
      (append_assoc out part (concat parts))
      (send_parts-Arrived kernel peer parts (kernel.send part s) ys (out ++ part)
        (peer.send_keeps part s ys a.0, peer.send_offers part s ∙ ap (λ l. l ++ part) a.1))
