-- ===== src/Telemetry/Server/Writing.antt =====
-- What a client of the metrics server gets.
use jellybean.Base.{
  ℕ, zero, suc, ◌≤◌, ◌<◌, ◌≡◌, refl, sym, ap, ◌∙◌, arith, Bool, false, Bool-cases, inl, inr, Option,
  none, some, List, [], ◌∷◌, ◌++◌, append_assoc, length, take, drop, length-drop, take-append-drop,
}
use jellybean.Telemetry.Server.{write_round, write_loop, write_report}

-- Some bytes are written, and the rest are not.
abbrev pub Splits : List ℕ → List ℕ → Type 0
Splits json written = (rest : List ℕ) × (json ≡ written ++ rest)

module _ {ℓ} {S : Type ℓ} (answer : List ℕ → S → Option ℕ × S) (stops : S → Bool) where
  round-Splits :
      (more : List ℕ → S → List ℕ × S) (left : List ℕ) (a : Option ℕ × S)
      → ((rest : List ℕ) (s : S) → Splits rest (more rest s).0)
      → Splits left (write_round more left a).0
  round-Splits more left (none, s) f = (left, refl)
  round-Splits more left (some n, s) f =
      let (rest, e) = f (drop n left) s in
      (
        rest,
        sym (take-append-drop n left)
            ∙ ap (λ (l : List ℕ). take n left ++ l) e
            ∙ sym (append_assoc (take n left) (more (drop n left) s).0 rest),
      )

  loop-Splits :
      (rounds : ℕ) (left : List ℕ) (s : S) → Splits left (write_loop answer stops rounds left s).0
  unfolding write_loop
  loop-Splits zero left s = (left, refl)
  loop-Splits (suc rounds) [] s = ([], refl)
  loop-Splits (suc rounds) (b ∷ left) s =
      let round_splits =
        round-Splits (λ rest s'. write_loop answer stops rounds rest s') (b ∷ left)
          (answer (b ∷ left) s) (λ rest s'. loop-Splits rounds rest s') in
      elim (Bool-cases (stops s)) [
        | inl stopped ↦ rw stopped (b ∷ left, refl)
        | inr runs ↦ rw runs round_splits
      ]

  -- A client that takes bytes whenever it is offered some, and a server that is not stopped.
  abbrev pub Takes : Type ℓ
  Takes =
      (b : ℕ) (left : List ℕ) (s : S)
      → (n : ℕ) × (s' : S) × (answer (b ∷ left) s ≡ (some n, s'))
        × (0 < n)
        × (n ≤ length (b ∷ left))

  loop-takes :
      (rounds : ℕ) (left : List ℕ) (s : S)
      → Takes
      → ((s : S) → stops s ≡ false)
      → length left ≤ rounds
      → (write_loop answer stops rounds left s).0 ≡ left
  unfolding write_loop
  loop-takes zero [] s f g le = refl
  loop-takes zero (b ∷ left) s f g le = absurd (omega (arith, le))
  loop-takes (suc rounds) [] s f g le = refl
  loop-takes (suc rounds) (b ∷ left) s f g le =
      let (n, s', is_n, pos, most) = f b left s in
      rw (g s) (
        ap (λ r. (write_round (λ rest t. write_loop answer stops rounds rest t) (b ∷ left) r).0)
          is_n
        ∙ ap (λ (l : List ℕ). take n (b ∷ left) ++ l)
            (loop-takes rounds (drop n (b ∷ left)) s' f g
              (omega (arith, le, pos, length-drop n (b ∷ left))))
        ∙ take-append-drop n (b ∷ left))

  -- A client gets a part of the report from its front; and all of it, if it takes bytes whenever it is
  -- offered some and the server is not stopped meanwhile.
  pub write_report-Splits :
      (json : List ℕ) (s : S)
      → Splits json (write_report answer stops json s).0
        × (Takes → ((s : S) → stops s ≡ false) → (write_report answer stops json s).0 ≡ json)
  unfolding write_report
  write_report-Splits json s =
      (loop-Splits (length json) json s, λ f g. loop-takes (length json) json s f g (omega arith))
