-- ===== src/Server/Session/Turns.antt =====
-- A round of the loop of a session.
use mathlib.Core.Path.{subst}
use jellybean.Base.{
  ℕ, ◌-◌, ◌*◌, ◌^◌, ◌≤◌, ◌<◌, ◌≡◌, refl, sym, ap, ◌∙◌, arith, Bool, true, false, some, List, [],
  ◌∷◌, ◌++◌, append-nil, append_assoc, length, replicate, ltb,
}
use jellybean.Base.Words.{le_bytes, of_le_bytes, of_le_bytes-le_bytes}
use jellybean.Inference.Types.{InferenceRequest, InferenceResponse}
use jellybean.Net.Socket.{Kernel, read_bytes, read}
use jellybean.Net.Socket.Delivery.{Peer, reading, read-Arrived, read-end}
use jellybean.Server.Settings.{ExtendedConfig}
use jellybean.Server.Session.{
  max_elems, replies, hangs_up, throws_error, reply_parts, send_parts, read_payload, after_payload,
  after_elems, after_id, after_length, turn,
}
use jellybean.Server.Session.Queries.{
  Query, wire_floats, concat, head_bytes, query_bytes, IsQuery, length-wire_floats,
  to_floats-wire_floats, asked, read_payload-Arrived, send_parts-Arrived,
}

module _ {S : Type 0} (kernel : Kernel S) (config : ExtendedConfig) (running resizes : ℕ → Bool)
    (infer : ℕ → InferenceRequest ℕ → InferenceResponse × List ℕ) (peer : Peer kernel) where
  -- The bytes that are to come, and those that the peer has been sent.
  abbrev pub Arrived : List ℕ → S → List ℕ → Type 0
  Arrived out s bs = (reading peer out).Arrived s bs

  after_payload-some :
      (k : ℕ) (q : Query) (s : S) (ys out : List ℕ)
      → IsQuery resizes q
      → Arrived out s ys
      → (s' : S) × (after_payload kernel config running resizes infer k q.model_id
            (length q.floats)
            (some (wire_floats q.floats), s)
          ≡ (replies (reply_parts (infer k (asked config q))), s'))
        × Arrived (out ++ concat (reply_parts (infer k (asked config q)))) s' ys
  unfolding after_payload
  after_payload-some k q s ys out ok a = (
    send_parts kernel (reply_parts (infer k (asked config q))) s,
    rw (ok.room, to_floats-wire_floats q.floats ok.words) refl,
    send_parts-Arrived kernel peer (reply_parts (infer k (asked config q))) s ys out a,
  )

  after_elems-fits :
      (k n : ℕ) (model_id : List ℕ) (s : S)
      → n ≤ max_elems
      → resizes n ≡ true
      → after_elems kernel config running resizes infer k model_id (read_bytes (le_bytes 4 n), s)
        ≡ after_payload kernel config running resizes infer k model_id n
            (read_payload kernel (n * 4) (n * 4) s)
  unfolding after_elems
  after_elems-fits k n model_id s le room =
      let same : of_le_bytes (le_bytes 4 n) ≡ n = of_le_bytes-le_bytes 4 n (omega (arith, le)) in
      rw (same, (let e : ltb max_elems n ≡ false = ground (arith, le) in e), room) refl

  after_elems-some :
      (k : ℕ) (q : Query) (s : S) (ys out : List ℕ)
      → IsQuery resizes q
      → Arrived out s (wire_floats q.floats ++ ys)
      → (s' : S) × (after_elems kernel config running resizes infer k q.model_id
            (read_bytes (le_bytes 4 (length q.floats)), s)
          ≡ (replies (reply_parts (infer k (asked config q))), s'))
        × Arrived (out ++ concat (reply_parts (infer k (asked config q)))) s' ys
  after_elems-some k q s ys out ok a =
      let n = length q.floats in
      let size = length-wire_floats q.floats in
      let (s1, payload, a1) =
        read_payload-Arrived kernel (reading peer out) (n * 4) s (wire_floats q.floats) ys
          (let e : length (wire_floats q.floats) ≤ n * 4 = omega (arith, size) in e) a in
      let (s', answered, a') = after_payload-some k q s1 ys out ok a1 in
      (
        s',
        after_elems-fits k n q.model_id s ok.bounded ok.room
            ∙ ap
                (λ m.
                  after_payload kernel config running resizes infer k q.model_id n
                    (read_payload kernel (n * 4) m s))
                (sym size)
            ∙ ap (after_payload kernel config running resizes infer k q.model_id n) payload
            ∙ answered,
        a',
      )

  after_id-some :
      (k : ℕ) (model_id : List ℕ) (s : S)
      → 0 < length model_id
      → after_id kernel config running resizes infer k (length model_id) (read_bytes model_id, s)
        ≡ after_elems kernel config running resizes infer k model_id (read kernel 4 s)
  unfolding after_id
  after_id-some k [] s pos = absurd (omega (arith, pos))
  after_id-some k (b ∷ bs) s pos =
      ap
        (λ n.
          after_elems kernel config running resizes infer k ((b ∷ bs) ++ replicate n 0)
            (read kernel 4 s))
        (let e : length (b ∷ bs) - length (b ∷ bs) ≡ 0 = omega arith in e)
      ∙ ap (λ l. after_elems kernel config running resizes infer k l (read kernel 4 s))
          (append-nil (b ∷ bs))

  -- The reads of a head.
  pub turn-head :
      (k n : ℕ) (model_id : List ℕ) (s : S) (ys out : List ℕ)
      → 0 < length model_id
      → Arrived out s (head_bytes model_id n ++ ys)
      → (s' : S) × (turn kernel config running resizes infer k s
          ≡ after_elems kernel config running resizes infer k model_id
              (read_bytes (le_bytes 4 n), s'))
        × Arrived out s' ys
  unfolding turn after_length
  turn-head k n model_id s ys out pos a =
      let len = length model_id in
      let (s1, one, a1) =
        read-Arrived kernel (reading peer out) 1 s (len ∷ []) ((model_id ++ le_bytes 4 n) ++ ys)
          refl a in
      let (s2, name, a2) =
        read-Arrived kernel (reading peer out) len s1 model_id (le_bytes 4 n ++ ys) refl
          (subst (Arrived out s1) (append_assoc model_id (le_bytes 4 n) ys) a1) in
      let (s', four, a') = read-Arrived kernel (reading peer out) 4 s2 (le_bytes 4 n) ys refl a2 in
      (
        s',
        ap (after_length kernel config running resizes infer k) one
            ∙ ap (after_id kernel config running resizes infer k len) name
            ∙ after_id-some k model_id s2 pos
            ∙ ap (after_elems kernel config running resizes infer k model_id) four,
        a',
      )

  pub turn-Query :
      (k : ℕ) (q : Query) (s : S) (ys out : List ℕ)
      → IsQuery resizes q
      → Arrived out s (query_bytes q ++ ys)
      → (s' : S) × (turn kernel config running resizes infer k s
          ≡ (replies (reply_parts (infer k (asked config q))), s'))
        × Arrived (out ++ concat (reply_parts (infer k (asked config q)))) s' ys
  turn-Query k q s ys out ok a =
      let n = length q.floats in
      let (s1, head, a1) = turn-head k n q.model_id s (wire_floats q.floats ++ ys) out ok.named (
        subst (Arrived out s) (append_assoc (head_bytes q.model_id n) (wire_floats q.floats) ys)
          a) in
      let (s', rest, a') = after_elems-some k q s1 ys out ok a1 in (s', head ∙ rest, a')

  -- A client that has sent nothing more.
  pub turn-end :
      (k : ℕ) (s : S) (out : List ℕ)
      → Arrived out s []
      → (s' : S) × (turn kernel config running resizes infer k s ≡ (hangs_up, s'))
        × Arrived out s' []
  unfolding turn after_length
  turn-end k s out a =
      let (s', none_left, a') = read-end kernel (reading peer out) 1 s (omega arith) a in
      (s', ap (after_length kernel config running resizes infer k) none_left, a')

  pub after_elems-large :
      (k n : ℕ) (model_id : List ℕ) (s : S)
      → max_elems < n
      → n < 2 ^ 32
      → after_elems kernel config running resizes infer k model_id (read_bytes (le_bytes 4 n), s)
        ≡ (throws_error, s)
  unfolding after_elems
  after_elems-large k n model_id s lt small =
      let same : of_le_bytes (le_bytes 4 n) ≡ n = of_le_bytes-le_bytes 4 n (omega (arith, small)) in
      rw (same, (let e : ltb max_elems n ≡ true = ground (arith, lt) in e)) refl
