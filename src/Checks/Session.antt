-- ===== src/Checks/Session.antt =====
-- A session with a client that is there in memory.
use jellybean.Base.{
  ℕ, zero, suc, ◌+◌, ◌≤◌, ◌<◌, ◌≡◌, refl, sym, ap, arith, Bool, true, List, [], ◌∷◌, ◌++◌, length,
  length-take, take, drop, take-append-drop,
}
use jellybean.Base.Text.{codes}
use jellybean.Inference.Types.{InferenceRequest, InferenceResponse, no_response}
use jellybean.Net.Socket.{Received, got, closed, would_block, Kernel}
use jellybean.Net.Socket.Delivery.{Peer}
use jellybean.Server.Settings.{default_config}
use jellybean.Server.Session.{hung_up, threw, session}
use jellybean.Server.Session.Queries.{Query, AllQueries, all_bytes, all_replies, head_bytes}
use jellybean.Server.Session.Answers.{Ends, session-Answers, session-throws}

abbrev recv : ℕ → List ℕ → Received × List ℕ
recv zero bs = (would_block, bs)
recv (suc want) [] = (closed, [])
recv (suc want) (b ∷ bs) = (got (b ∷ take want bs), drop want bs)

recv_lem :
    (want : ℕ) (s s' bs : List ℕ)
    → recv want s ≡ (got bs, s')
    → (0 < length bs) × (length bs ≤ want)
recv_lem zero s s' bs e = absurd cc
recv_lem (suc want) [] s' bs e = absurd cc
recv_lem (suc want) (b ∷ s) s' bs e =
    let same : b ∷ take want s ≡ bs = cc in omega (arith, ap length same, length-take want s)

-- What is to come from the client, and what it has been sent.
abbrev recv_beside : ℕ → List ℕ × List ℕ → Received × (List ℕ × List ℕ)
recv_beside want (s, out) = ((recv want s).0, ((recv want s).1, out))

recv_beside_lem :
    (want : ℕ) (s s' : List ℕ × List ℕ) (bs : List ℕ)
    → recv_beside want s ≡ (got bs, s')
    → (0 < length bs) × (length bs ≤ want)
recv_beside_lem want (s, out) (s', out') bs e = recv_lem want s s' bs (ap (λ r. (r.0, r.1.0)) e)

abbrev memory : Kernel (List ℕ × List ℕ)
memory = record {
  recv = recv_beside;
  send = λ out s. (s.0, s.1 ++ out);
  recv_lem = recv_beside_lem;
}

recv_some :
    (want : ℕ) (s : List ℕ × List ℕ) (b : ℕ) (bs : List ℕ)
    → s.0 ≡ b ∷ bs
    → 0 < want
    → (chunk rest : List ℕ) × (s' : List ℕ × List ℕ) × (recv_beside want s ≡ (got chunk, s'))
      × (b ∷ bs ≡ chunk ++ rest)
      × (s'.0 ≡ rest)
      × (s'.1 ≡ s.1)
recv_some zero s b bs e pos = absurd (omega (arith, pos))
recv_some (suc want) (s, out) b bs e pos = (
  b ∷ take want bs,
  drop want bs,
  (drop want bs, out),
  ap (λ l. recv_beside (suc want) (l, out)) e,
  ap (λ l. b ∷ l) (sym (take-append-drop want bs)),
  refl,
  refl,
)

recv_end :
    (want : ℕ) (s : List ℕ × List ℕ)
    → s.0 ≡ []
    → 0 < want
    → (s' : List ℕ × List ℕ) × (recv_beside want s ≡ (closed, s')) × (s'.0 ≡ []) × (s'.1 ≡ s.1)
recv_end zero s e pos = absurd (omega (arith, pos))
recv_end (suc want) (s, out) e pos =
    (([], out), ap (λ l. recv_beside (suc want) (l, out)) e, refl, refl)

abbrev peer : Peer memory
peer = record {
  Arrived = λ s bs. s.0 ≡ bs;
  offered = λ s. s.1;
  recv_some = recv_some;
  recv_end = recv_end;
  send_keeps = λ out s bs a. a;
  send_offers = λ out s. refl;
}

abbrev always : ℕ → Bool
always k = true

abbrev double : ℕ → InferenceRequest ℕ → InferenceResponse × List ℕ
double k req = (
  record no_response { is_ok = true; output_elems_written = length req.input; latency_ns = k },
  req.input,
)

abbrev queries : List Query
queries =
    record { model_id = codes "bert"; floats = 5 ∷ 600 ∷ [] }
    ∷ record { model_id = codes "gpt"; floats = [] }
    ∷ []

queries-AllQueries : AllQueries always queries
queries-AllQueries = (
  record {
    named = omega arith;
    bounded = omega arith;
    words = (omega arith, (omega arith, tt));
    room = refl;
  },
  (record { named = omega arith; bounded = omega arith; words = tt; room = refl }, tt),
)

session-Answers_example :
    Ends memory default_config always always double peer
      (all_bytes queries, [])
      hung_up
      (all_replies default_config double 0 queries)
      (session memory default_config always always double
        (length queries + 1)
        0
        (all_bytes queries, []))
session-Answers_example =
    session-Answers memory default_config always always double peer queries 0
      (all_bytes queries, []) (λ i. refl) queries-AllQueries refl

-- The bytes of the two replies.
replies_of_two :
    all_replies default_config double 0 queries
    ≡ 1 ∷ 0 ∷ 0 ∷ 0 ∷ 0 ∷ 0 ∷ 0 ∷ 0 ∷ 0 ∷ 2 ∷ 0 ∷ 0 ∷ 0 ∷ 5 ∷ 0 ∷ 0 ∷ 0 ∷ 88 ∷ 2 ∷ 0 ∷ 0 ∷ 1 ∷ 1 ∷ 0
      ∷ 0 ∷ 0 ∷ 0 ∷ 0 ∷ 0 ∷ 0 ∷ 0 ∷ 0 ∷ 0 ∷ 0 ∷ []
replies_of_two = refl

abbrev with_large : List ℕ
with_large = all_bytes queries ++ (head_bytes (codes "bert") 100000001 ++ [])

session-throws_example :
    Ends memory default_config always always double peer
      (with_large, [])
      threw
      (all_replies default_config double 0 queries)
      (session memory default_config always always double
        (length queries + suc 0)
        0
        (with_large, []))
session-throws_example =
    session-throws memory default_config always always double peer queries 0 0 100000001
      (codes "bert") (with_large, []) [] (λ i. refl) queries-AllQueries (omega arith) (omega arith)
      (omega arith) refl
