-- ===== src/Scheduler/Deque/Copy.antt =====
-- The loop of `WorkStealingDeque::resize`: what it copies, and what it leaves alone.
use jellybean.Base.{
  ℕ, zero, suc, ◌+◌, ◌-◌, ◌*◌, ◌%◌, ◌^◌, ◌≤◌, ◌<◌, ◌≡◌, ◌≢◌, refl, sym, ap, ◌∙◌, arith, List, [],
  ◌∷◌, length, bit_and,
}
use jellybean.Base.Bits.{bit_and_mask, two-pow-suc, two-pow-pos}
use jellybean.Concurrency.Spsc.Index.{mod-ne}
use jellybean.Concurrency.Spsc.Refine.{Window}
use jellybean.Scheduler.Deque.{Array, mask, load_item, store_item, copy_items}

abbrev pub IsPow : ℕ → Type 0
IsPow c = (k : ℕ) × (c ≡ 2 ^ k)

pub IsPow-pos : (c : ℕ) → IsPow c → 0 < c
IsPow-pos c (k, e) = omega (arith, e, two-pow-pos k)

pub IsPow-double : (c : ℕ) → IsPow c → IsPow (c * 2)
IsPow-double c (k, e) = (suc k, omega (arith, e, two-pow-suc k))

pub mask-mod : (c i : ℕ) → IsPow c → mask c i ≡ i % c
mask-mod c i (k, e) =
    ap (λ (t : ℕ). bit_and i (t - 1)) e ∙ bit_and_mask k i ∙ ap (λ (t : ℕ). i % t) (sym e)

module _ {ℓ} {T : Type ℓ} where
  pub copy_items-capacity :
      (n i : ℕ) (old new : Array T) → (copy_items n i old new).capacity ≡ new.capacity
  unfolding copy_items
  copy_items-capacity zero i old new = refl
  copy_items-capacity (suc n) i old new =
      copy_items-capacity n (i + 1) old (store_item new i (load_item old i))

  -- A place that is not copied to stays as it is.
  copy_items-off :
      (n i s : ℕ) (old new : Array T)
      → IsPow new.capacity
      → ((j : ℕ) → j < n → (i + j) % new.capacity ≢ s)
      → (copy_items n i old new).storage s ≡ new.storage s
  unfolding copy_items
  copy_items-off zero i s old new p off = refl
  copy_items-off (suc n) i s old new p off =
      copy_items-off n (i + 1) s old (store_item new i (load_item old i)) p (λ j lt e.
        off (suc j) (omega arith)
          (ap (λ (t : ℕ). t % new.capacity) (let g : i + suc j ≡ i + 1 + j = omega arith in g) ∙ e))
      ∙ ground (
        arith,
        mask-mod new.capacity i p,
        off 0 (omega arith),
        ap (λ (t : ℕ). t % new.capacity) (let g : i + 0 ≡ i = omega arith in g),
      )

  pub copy_items-Window :
      (xs : List T) (i : ℕ) (old new : Array T)
      → IsPow old.capacity
      → IsPow new.capacity
      → length xs ≤ new.capacity
      → Window old.capacity old.storage i xs
      → Window new.capacity (copy_items (length xs) i old new).storage i xs
  unfolding copy_items
  copy_items-Window [] i old new p q room w = tt
  copy_items-Window (x ∷ xs) i old new p q room w = (
    copy_items-off (length xs) (i + 1) (i % new.capacity) old (store_item new i (load_item old i)) q
          (λ j lt e. mod-ne new.capacity i (1 + j) (omega arith) (omega arith) (
            sym e
            ∙ ap (λ (t : ℕ). t % new.capacity)
                (let g : i + 1 + j ≡ i + (1 + j) = omega arith in g)))
        ∙ ground (arith, mask-mod new.capacity i q, mask-mod old.capacity i p, w.0),
    copy_items-Window xs (i + 1) old (store_item new i (load_item old i)) p q (omega arith) w.1,
  )

  -- The items that are copied.
  pub copy_items-cell :
      (n i j : ℕ) (old new : Array T)
      → IsPow old.capacity
      → IsPow new.capacity
      → n ≤ new.capacity
      → j < n
      → (copy_items n i old new).storage ((i + j) % new.capacity)
        ≡ old.storage ((i + j) % old.capacity)
  unfolding copy_items
  copy_items-cell zero i j old new p q le lt = absurd (omega (arith, lt))
  copy_items-cell (suc n) i zero old new p q le lt =
      ap
        (λ (t : ℕ).
          (copy_items n (i + 1) old (store_item new i (load_item old i))).storage
            (t % new.capacity))
        (let g : i + 0 ≡ i = omega arith in g)
      ∙ copy_items-off n (i + 1) (i % new.capacity) old (store_item new i (load_item old i)) q
          (λ j lt' e. mod-ne new.capacity i (1 + j) (omega arith) (omega (arith, le)) (
            sym e
            ∙ ap (λ (t : ℕ). t % new.capacity)
                (let g : i + 1 + j ≡ i + (1 + j) = omega arith in g)))
      ∙ ground (arith, mask-mod new.capacity i q, mask-mod old.capacity i p)
      ∙ ap (λ (t : ℕ). old.storage (t % old.capacity)) (let g : i ≡ i + 0 = omega arith in g)
  copy_items-cell (suc n) i (suc j) old new p q le lt =
      ap
        (λ (t : ℕ).
          (copy_items n (i + 1) old (store_item new i (load_item old i))).storage
            (t % new.capacity))
        (let g : i + suc j ≡ i + 1 + j = omega arith in g)
      ∙ copy_items-cell n (i + 1) j old (store_item new i (load_item old i)) p q (omega (arith, le))
          (omega (arith, lt))
      ∙ ap (λ (t : ℕ). old.storage (t % old.capacity))
          (let g : i + 1 + j ≡ i + suc j = omega arith in g)
