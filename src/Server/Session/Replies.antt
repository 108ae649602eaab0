-- ===== src/Server/Session/Replies.antt =====
-- The writes of a session, held against the replies that docs/wire_protocol.md describes.
use jellybean.Base.{
  ℕ, zero, suc, ◌+◌, ◌≡◌, refl, sym, ap, ap₂, ◌∙◌, arith, Bool, ◌&&◌, true, false, List, [], ◌∷◌,
  ◌++◌, append-nil, append_assoc, take, ltb, lt→ltb, if◌then◌else◌,
}
use jellybean.Base.Words.{le_bytes}
use jellybean.Inference.Types.{InferenceRequest, InferenceResponse}
use jellybean.Server.Settings.{ExtendedConfig}
use jellybean.Server.Session.{status_byte, float_bytes, reply_parts}
use jellybean.Server.Session.Queries.{
  Query, wire_floats, reply_of, reply_bytes, concat, asked, all_replies,
}

pub concat-append : (ps qs : List (List ℕ)) → concat (ps ++ qs) ≡ concat ps ++ concat qs
concat-append [] qs = refl
concat-append (p ∷ ps) qs =
    ap (λ l. p ++ l) (concat-append ps qs) ∙ sym (append_assoc p (concat ps) (concat qs))

float_bytes-wire_floats : (fs : List ℕ) → float_bytes fs ≡ wire_floats fs
float_bytes-wire_floats [] = refl
float_bytes-wire_floats (f ∷ fs) = ap (λ l. le_bytes 4 f ++ l) (float_bytes-wire_floats fs)

-- The payload is written if there is one.
payload-wire_floats :
    (n : ℕ) (output : List ℕ)
    → concat (if ltb 0 n then float_bytes (take n output) ∷ [] else [])
      ≡ wire_floats (take n output)
payload-wire_floats zero output = refl
payload-wire_floats (suc n) output =
    rw (lt→ltb 0 (suc n) (omega arith)) (
      append-nil (float_bytes (take (suc n) output))
      ∙ float_bytes-wire_floats (take (suc n) output))

parts-reply_bytes :
    (b : Bool) (latency_ns n : ℕ) (output : List ℕ)
    → status_byte b
        ++ (le_bytes 8 latency_ns
            ++ (le_bytes 4 n
                ++ concat (if b && ltb 0 n then float_bytes (take n output) ∷ [] else [])))
      ≡ reply_bytes b latency_ns n output
parts-reply_bytes true latency_ns n output =
    ap (λ r. 1 ∷ (le_bytes 8 latency_ns ++ (le_bytes 4 n ++ r))) (payload-wire_floats n output)
parts-reply_bytes false latency_ns n output = refl

reply_parts-reply_of :
    (answer : InferenceResponse × List ℕ) → concat (reply_parts answer) ≡ reply_of answer
unfolding reply_parts
reply_parts-reply_of (resp, output) =
    parts-reply_bytes resp.is_ok resp.latency_ns resp.output_elems_written output

module _ (config : ExtendedConfig)
    (infer : ℕ → InferenceRequest ℕ → InferenceResponse × List ℕ) where
  -- The writes for the requests from the request `k` on.
  abbrev pub all_parts : ℕ → List Query → List (List ℕ)
  all_parts k [] = []
  all_parts k (q ∷ qs) = reply_parts (infer k (asked config q)) ++ all_parts (k + 1) qs

  pub all_parts-all_replies :
      (k : ℕ) (qs : List Query) → concat (all_parts k qs) ≡ all_replies config infer k qs
  all_parts-all_replies k [] = refl
  all_parts-all_replies k (q ∷ qs) =
      concat-append (reply_parts (infer k (asked config q))) (all_parts (k + 1) qs)
      ∙ ap₂ ◌++◌ (reply_parts-reply_of (infer k (asked config q)))
          (all_parts-all_replies (k + 1) qs)
