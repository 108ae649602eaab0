-- ===== src/Server/Session/Answers.antt =====
-- What a session writes for requests that have arrived.
use mathlib.Core.Path.{subst}
use jellybean.Base.{
  ℕ, zero, suc, ◌+◌, ◌^◌, ◌<◌, ◌≡◌, refl, sym, ap, ◌∙◌, arith, Bool, true, List, [], ◌∷◌, ◌++◌,
  append-nil, append_assoc, length,
}
use jellybean.Inference.Types.{InferenceRequest, InferenceResponse}
use jellybean.Net.Socket.{Kernel}
use jellybean.Net.Socket.Delivery.{Peer}
use jellybean.Server.Settings.{ExtendedConfig}
use jellybean.Server.Session.{
  max_elems, Turn, replies, hangs_up, throws_error, Ending, hung_up, threw, reply_parts, turn,
  after_turn, session,
}
use jellybean.Server.Session.Queries.{
  Query, head_bytes, query_bytes, AllQueries, all_bytes, concat, asked, all_replies,
}
use jellybean.Server.Session.Replies.{concat-append, all_parts, all_parts-all_replies}
use jellybean.Server.Session.Turns.{Arrived, turn-head, turn-Query, turn-end, after_elems-large}

module _ {S : Type 0} (kernel : Kernel S) (config : ExtendedConfig) (running resizes : ℕ → Bool)
    (infer : ℕ → InferenceRequest ℕ → InferenceResponse × List ℕ) (peer : Peer kernel) where
  session-turn :
      (rounds k : ℕ) (s : S) (r : Turn × S)
      → running k ≡ true
      → turn kernel config running resizes infer k s ≡ r
      → session kernel config running resizes infer (suc rounds) k s
        ≡ after_turn (session kernel config running resizes infer rounds (k + 1)) r
  unfolding session
  session-turn rounds k s r go h = rw (go, h) refl

  -- What a session does behind the writes for some requests.
  abbrev behind : List (List ℕ) → (Ending × List (List ℕ)) × S → (Ending × List (List ℕ)) × S
  behind parts r = ((r.0.0, parts ++ r.0.1), r.1)

  -- Well-formed requests are answered, and the session goes on with what follows them.
  session-after :
      (rounds total k : ℕ) (qs : List Query) (s : S) (ys out : List ℕ)
      → length qs + rounds ≡ total
      → ((i : ℕ) → running i ≡ true)
      → AllQueries resizes qs
      → Arrived kernel config running resizes infer peer out s (all_bytes qs ++ ys)
      → (s' : S) × (j : ℕ) × (session kernel config running resizes infer total k s
          ≡ behind
              (all_parts config infer k qs)
              (session kernel config running resizes infer rounds j s'))
        × Arrived kernel config running resizes infer peer
            (out ++ concat (all_parts config infer k qs))
            s'
            ys
  session-after rounds total k [] s ys out e go ok a = (
    s,
    k,
    ap (λ n. session kernel config running resizes infer n k s) (omega (arith, e)),
    (a.0, a.1 ∙ sym (append-nil out)),
  )
  session-after rounds zero k (q ∷ qs) s ys out e go ok a = absurd (omega (arith, e))
  session-after rounds (suc total) k (q ∷ qs) s ys out e go ok a =
      let parts = reply_parts (infer k (asked config q)) in
      let later = all_parts config infer (k + 1) qs in
      let (s1, first, a1) =
        turn-Query kernel config running resizes infer peer k q s (all_bytes qs ++ ys) out ok.0 (
          subst (Arrived kernel config running resizes infer peer out s)
            (append_assoc (query_bytes q) (all_bytes qs) ys) a) in
      let (s', j, others, a') =
        session-after rounds total (k + 1) qs s1 ys (out ++ concat parts) (omega (arith, e)) go ok.1
          a1 in
      let r = session kernel config running resizes infer rounds j s' in
      (
        s',
        j,
        session-turn total k s (replies parts, s1) (go k) first
            ∙ ap (behind parts) others
            ∙ ap (λ l. ((r.0.0, l), r.1)) (sym (append_assoc parts later r.0.1)),
        (
          a'.0,
          a'.1
              ∙ append_assoc out (concat parts) (concat later)
              ∙ ap (λ l. out ++ l) (sym (concat-append parts later)),
        ),
      )

  -- A session from `s` on that ends so, with writes that make up these bytes, which the peer has been
  -- sent behind those before.
  abbrev pub Ends : S → Ending → List ℕ → (Ending × List (List ℕ)) × S → Type 0
  Ends s ending bytes r =
      (r.0.0 ≡ ending) × (concat r.0.1 ≡ bytes) × (peer.offered r.1 ≡ peer.offered s ++ bytes)

  behind-Ends :
      (ending : Ending) (k : ℕ) (qs : List Query) (s s' : S) (r : (Ending × List (List ℕ)) × S)
      → r ≡ behind (all_parts config infer k qs) ((ending, []), s')
      → peer.offered s' ≡ peer.offered s ++ concat (all_parts config infer k qs)
      → Ends s ending (all_replies config infer k qs) r
  behind-Ends ending k qs s s' r e sent =
      let bytes = all_parts-all_replies config infer k qs in
      (
        ap (λ t. t.0.0) e,
        ap (λ t. concat t.0.1) e ∙ ap concat (append-nil (all_parts config infer k qs)) ∙ bytes,
        ap (λ t. peer.offered t.1) e ∙ sent ∙ ap (λ l. peer.offered s ++ l) bytes,
      )

  -- The server runs on, and a client sends well-formed requests and closes then; `recv` gives the
  -- bytes in parts of any size, but it never finds none while there are more to come. Then the
  -- session ends by the client's closing, and what it has written and has passed to `send` is, byte
  -- for byte, the replies of the protocol to what the runtime answers to the requests, one for each,
  -- in their order.
  pub session-Answers :
      (qs : List Query) (k : ℕ) (s : S)
      → ((i : ℕ) → running i ≡ true)
      → AllQueries resizes qs
      → peer.Arrived s (all_bytes qs)
      → Ends s hung_up
          (all_replies config infer k qs)
          (session kernel config running resizes infer (length qs + 1) k s)
  session-Answers qs k s go ok a =
      let (s1, j, answered, a1) =
        session-after 1 (length qs + 1) k qs s [] (peer.offered s) refl go ok
          (subst (peer.Arrived s) (sym (append-nil (all_bytes qs))) a, refl) in
      let (s', ends, a') = turn-end kernel config running resizes infer peer j s1 _ a1 in
      behind-Ends hung_up k qs s s' _
        (answered
          ∙ ap (behind (all_parts config infer k qs))
              (session-turn 0 j s1 (hangs_up, s') (go j) ends))
        a'.1

  -- The server runs on, and a client sends well-formed requests and behind them one that announces
  -- more than a hundred million floats; `recv` never finds no bytes while there are more to come. Then
  -- the session ends by an exception, and what it has written and has passed to `send` is the replies
  -- to the earlier requests: this one has no reply, and nothing that follows it.
  pub session-throws :
      (qs : List Query) (rounds k n : ℕ) (model_id : List ℕ) (s : S) (ys : List ℕ)
      → ((i : ℕ) → running i ≡ true)
      → AllQueries resizes qs
      → 0 < length model_id
      → max_elems < n
      → n < 2 ^ 32
      → peer.Arrived s (all_bytes qs ++ (head_bytes model_id n ++ ys))
      → Ends s threw
          (all_replies config infer k qs)
          (session kernel config running resizes infer (length qs + suc rounds) k s)
  session-throws qs rounds k n model_id s ys go ok pos lt small a =
      let (s1, j, answered, a1) =
        session-after (suc rounds) (length qs + suc rounds) k qs s (head_bytes model_id n ++ ys)
          (peer.offered s) refl go ok (a, refl) in
      let (s', head, a') =
        turn-head kernel config running resizes infer peer j n model_id s1 ys _ pos a1 in
      behind-Ends threw k qs s s' _
        (answered
          ∙ ap (behind (all_parts config infer k qs)) (
              session-turn rounds j s1 (throws_error, s') (go j)
                (head
                  ∙ after_elems-large kernel config running resizes infer peer j n model_id s' lt
                      small)))
        a'.1
