-- ===== src/Net/Socket/Delivery.antt =====
-- Reads of bytes that have arrived.
use mathlib.Core.Path.{subst}
use jellybean.Base.{
  ℕ, zero, suc, ◌-◌, ◌≤◌, ◌<◌, ◌≡◌, refl, sym, ap, ◌∙◌, arith, List, [], ◌∷◌, ◌++◌, length, drop,
  length-drop,
}
use jellybean.Net.Socket.{got, closed, Kernel, read_bytes, read_round, read_loop, read, behind}

-- A peer whose bytes are all there when they are asked for, and that closes its side behind them:
-- `recv` gives a part of them from the front, as long as there are any.
pub record Delivery {S : Type 0} (kernel : Kernel S) : Type 1 where
  pub Arrived : S → List ℕ → Type 0
  pub recv_some :
      (want : ℕ) (s : S) (b : ℕ) (bs : List ℕ)
      → Arrived s (b ∷ bs)
      → 0 < want
      → (chunk rest : List ℕ) × (s' : S) × (kernel.recv want s ≡ (got chunk, s'))
        × (b ∷ bs ≡ chunk ++ rest)
        × Arrived s' rest
  pub recv_end :
      (want : ℕ) (s : S)
      → Arrived s []
      → 0 < want
      → (s' : S) × (kernel.recv want s ≡ (closed, s')) × Arrived s' []

-- The same peer with what it has been sent: `send` passes the bytes on, and `recv` sends none.
pub record Peer {S : Type 0} (kernel : Kernel S) : Type 1 where
  pub Arrived : S → List ℕ → Type 0
  pub offered : S → List ℕ
  pub recv_some :
      (want : ℕ) (s : S) (b : ℕ) (bs : List ℕ)
      → Arrived s (b ∷ bs)
      → 0 < want
      → (chunk rest : List ℕ) × (s' : S) × (kernel.recv want s ≡ (got chunk, s'))
        × (b ∷ bs ≡ chunk ++ rest)
        × Arrived s' rest
        × (offered s' ≡ offered s)
  pub recv_end :
      (want : ℕ) (s : S)
      → Arrived s []
      → 0 < want
      → (s' : S) × (kernel.recv want s ≡ (closed, s')) × Arrived s' [] × (offered s' ≡ offered s)
  pub send_keeps :
      (out : List ℕ) (s : S) (bs : List ℕ) → Arrived s bs → Arrived (kernel.send out s) bs
  pub send_offers : (out : List ℕ) (s : S) → offered (kernel.send out s) ≡ offered s ++ out

-- Between two calls of `send`, when the peer has been sent just `out`.
abbrev pub reading : {S : Type 0} {kernel : Kernel S} → Peer kernel → List ℕ → Delivery kernel
reading peer out = record {
  Arrived = λ s bs. peer.Arrived s bs × (peer.offered s ≡ out);
  recv_some = λ want s b bs a pos.
      let (chunk, rest, s', answer, split, a', kept) = peer.recv_some want s b bs a.0 pos in
      (chunk, rest, s', answer, split, (a', kept ∙ a.1));
  recv_end = λ want s a pos.
      let (s', answer, a', kept) = peer.recv_end want s a.0 pos in (s', answer, (a', kept ∙ a.1));
}

-- A part from the front that is no longer than the first of two lists is a part of it.
part :
    (chunk rest xs ys : List ℕ)
    → xs ++ ys ≡ chunk ++ rest
    → length chunk ≤ length xs
    → (xs ≡ chunk ++ drop (length chunk) xs) × (rest ≡ drop (length chunk) xs ++ ys)
part [] rest xs ys e le = (refl, sym e)
part (c ∷ chunk) rest [] ys e le = absurd (omega (arith, le))
part (c ∷ chunk) rest (x ∷ xs) ys e le =
    let tail_same : xs ++ ys ≡ chunk ++ rest = cc in
    let shorter : length chunk ≤ length xs = omega (arith, le) in
    let (front, back) = part chunk rest xs ys tail_same shorter in
    (let same : x ≡ c = cc in rw same (ap (λ l. c ∷ l) front), back)

module _ {S : Type 0} (kernel : Kernel S) (peer : Delivery kernel) where
  open peer use {Arrived}

  read_loop-got :
      (rounds want : ℕ) (s s' : S) (bs : List ℕ)
      → kernel.recv (suc want) s ≡ (got bs, s')
      → read_loop kernel (suc rounds) (suc want) s
        ≡ behind kernel bs (read_loop kernel rounds (suc want - length bs) s')
  unfolding read_loop
  read_loop-got rounds want s s' bs h =
      ap (read_round kernel (λ cs t. read_loop kernel rounds (suc want - length cs) t)) h

  read_loop-closed :
      (rounds want : ℕ) (s s' : S)
      → kernel.recv (suc want) s ≡ (closed, s')
      → read_loop kernel (suc rounds) (suc want) s ≡ (read_bytes [], s')
  unfolding read_loop
  read_loop-closed rounds want s s' h =
      ap (read_round kernel (λ cs t. read_loop kernel rounds (suc want - length cs) t)) h

  read_loop-Arrived :
      (rounds want : ℕ) (s : S) (xs ys : List ℕ)
      → length xs ≡ want
      → want ≤ rounds
      → Arrived s (xs ++ ys)
      → (s' : S) × (read_loop kernel rounds want s ≡ (read_bytes xs, s')) × Arrived s' ys
  unfolding read_loop
  read_loop-Arrived zero want s [] ys e le a = (s, refl, a)
  read_loop-Arrived zero want s (x ∷ xs) ys e le a = absurd (omega (arith, e, le))
  read_loop-Arrived (suc rounds) zero s [] ys e le a = (s, refl, a)
  read_loop-Arrived (suc rounds) zero s (x ∷ xs) ys e le a = absurd (omega (arith, e))
  read_loop-Arrived (suc rounds) (suc want) s [] ys e le a = absurd (omega (arith, e))
  read_loop-Arrived (suc rounds) (suc want) s (x ∷ xs) ys e le a =
      let (chunk, rest, s1, answer, split, a1) =
        peer.recv_some (suc want) s x (xs ++ ys) a (omega arith) in
      let (pos, fits) = kernel.recv_lem (suc want) s s1 chunk answer in
      let shorter : length chunk ≤ length (x ∷ xs) = omega (arith, e, fits) in
      let (front, back) = part chunk rest (x ∷ xs) ys split shorter in
      let left : length (drop (length chunk) (x ∷ xs)) ≡ suc want - length chunk =
        length-drop (length chunk) (x ∷ xs) ∙ ap (λ n. n - length chunk) e in
      let (s', others, a') =
        read_loop-Arrived rounds (suc want - length chunk) s1 (drop (length chunk) (x ∷ xs)) ys left
          (omega (arith, pos, le)) (subst (Arrived s1) back a1) in
      (
        s',
        read_loop-got rounds want s s1 chunk answer
            ∙ ap (behind kernel chunk) others
            ∙ ap (λ l. (read_bytes l, s')) (sym front),
        a',
      )

  -- A read of bytes that have arrived gives just these.
  pub read-Arrived :
      (len : ℕ) (s : S) (xs ys : List ℕ)
      → length xs ≡ len
      → Arrived s (xs ++ ys)
      → (s' : S) × (read kernel len s ≡ (read_bytes xs, s')) × Arrived s' ys
  unfolding read
  read-Arrived len s xs ys e a = read_loop-Arrived len len s xs ys e (omega arith) a

  -- A read behind the last byte gives none.
  pub read-end :
      (len : ℕ) (s : S)
      → 0 < len
      → Arrived s []
      → (s' : S) × (read kernel len s ≡ (read_bytes [], s')) × Arrived s' []
  unfolding read
  read-end zero s pos a = absurd (omega (arith, pos))
  read-end (suc len) s pos a =
      let (s', answer, a') = peer.recv_end (suc len) s a pos in
      (s', read_loop-closed len len s s' answer, a')
