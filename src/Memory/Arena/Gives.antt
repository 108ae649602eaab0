-- ===== src/Memory/Arena/Gives.antt =====
-- What an allocation promises, for the bytes of the fast path and for those of a new block.
use jellybean.Base.{ℕ, ◌+◌, ◌-◌, ◌%◌, ◌^◌, ◌≤◌, ◌<◌, ◌≡◌, refl, ◌⊎◌, inl, inr, arith, sym}
use mathlib.Core.Path.{subst}
use jellybean.Base.{List, [], ◌∷◌, ◌++◌, append_assoc}
use jellybean.Proto.Wire.{align_up}
use jellybean.Base.Bits.{IsPowerOfTwo}
use jellybean.Proto.Wire.Align.{align_up-IsLeast}
use jellybean.Memory.Arena.{Arena, Block, Chain, linked, align_pointer}
use jellybean.Memory.Arena.Placement.{
  Every, Apart, IsPlaced, WellPlaced, IsValid, Occupied, InUse, IsFresh, Every-front, Every-back,
  Every-remark, Marked-append_left, Marked-append_right, not-Marked_zero, IsPlaced-at, Marked-Apart,
  WellPlaced-IsPlaced, before-Apart, WellPlaced-extend, WellPlaced-remark,
}

pub align_pointer-IsLeast :
    (cur alignment : ℕ)
    → IsPowerOfTwo alignment
    → cur + alignment ≤ 2 ^ 64
    → (cur ≤ align_pointer cur alignment)
      × (align_pointer cur alignment < cur + alignment)
      × (align_pointer cur alignment % alignment ≡ 0)
unfolding align_pointer align_up
align_pointer-IsLeast cur alignment ok room = align_up-IsLeast cur alignment ok room

-- What a successful allocation of `size` bytes at `p` means: the bytes are aligned, none of them was
-- handed out before, and afterwards they are handed out along with all that were before.
pub record Gives (a : Arena) (size alignment p : ℕ) (a' : Arena) : Type 0 where
  pub valid : IsValid a'
  pub aligned : p % alignment ≡ 0
  pub nonnull : 0 < p
  pub unused : (x : ℕ) → InUse a x → (x < p) ⊎ (p + size ≤ x)
  pub kept : (x : ℕ) → InUse a x → InUse a' x
  pub taken : (x : ℕ) → p ≤ x → x < p + size → InUse a' x

abbrev pub arena : ℕ → ℕ → Chain → ℕ → ℕ → Arena
arena current end blocks block_size total = record {
  current = current;
  end = end;
  blocks = blocks;
  block_size = block_size;
  total_allocated = total;
}

-- The fast path stays in the head block.
module _ (before after : List Block) (head : Block)
    (current end block_size total size alignment p : ℕ)
    (v : IsValid (arena current end (Chain.chain before head after) block_size total))
    (above : current ≤ p) (fits : p + size ≤ end) (multiple : p % alignment ≡ 0) where
  fast_unused :
      (x : ℕ) → Occupied (Chain.chain before head after) current x → (x < p) ⊎ (p + size ≤ x)
  fast_unused x (inl h) =
      elim (Marked-Apart head before x
        (Every-front IsPlaced before (head ∷ after) (WellPlaced-IsPlaced _ v.placed))
        (before-Apart before head after v.placed) h) [
          | inl l ↦ inl (omega arith)
          | inr r ↦ inr (omega arith)
        ]
  fast_unused x (inr (inl h)) = inl (omega arith)
  fast_unused x (inr (inr h)) = absurd (not-Marked_zero after x v.bumps.3 h)

  pub fast-Gives :
      Gives
        (arena current end (Chain.chain before head after) block_size total)
        size
        alignment
        p
        (arena (p + size) end (Chain.chain before head after) block_size total)
  fast-Gives = record {
    valid = record { placed = v.placed; bumps = (omega arith, fits, v.bumps.2, v.bumps.3) };
    aligned = multiple;
    nonnull = omega (arith, (IsPlaced-at before head after v.placed).nonnull);
    unused = fast_unused;
    kept = λ x. elim [
      | inl h ↦ inl h
      | inr (inl h) ↦ inr (inl (omega arith))
      | inr (inr h) ↦ inr (inr h)
    ];
    taken = λ x lo hi. inr (inl (omega arith));
  }

-- The slow path, from an arena without a block and from one with a head.
module _ (current end block_size total total' size alignment d s p : ℕ)
    (fits : (d ≤ p) × (p + size ≤ d + s)) (multiple : p % alignment ≡ 0) where
  abbrev pub block : Block
  block = record { data_at = d; size = s; used = 0 }

  pub first_Gives :
      IsValid (arena current end Chain.empty block_size total)
      → IsFresh (arena current end Chain.empty block_size total) d s
      → Gives
          (arena current end Chain.empty block_size total)
          size
          alignment
          p
          (arena (p + size) (d + s) (Chain.chain [] block []) block_size total')
  first_Gives v f = record {
    valid = record {
      placed = (record { nonnull = f.nonnull; inside = f.inside; marked = omega arith }, tt, tt);
      bumps = (omega arith, omega arith, refl, tt);
    };
    aligned = multiple;
    nonnull = omega (arith, f.nonnull);
    unused = λ x h. absurd h;
    kept = λ x h. absurd h;
    taken = λ x lo hi. inr (inl (omega arith));
  }

  module _ (before after : List Block) (head : Block)
      (v : IsValid (arena current end (Chain.chain before head after) block_size total))
      (f : IsFresh (arena current end (Chain.chain before head after) block_size total) d s) where
    abbrev pub marked : Block
    marked = record head { used = current - head.data_at }

    abbrev pub grown : Chain
    grown = Chain.chain (before ++ (marked ∷ [])) block []

    grown-WellPlaced : WellPlaced (linked grown)
    grown-WellPlaced =
        WellPlaced-extend (before ++ (marked ∷ [])) after block
          (subst WellPlaced (sym (append_assoc before (marked ∷ []) after)) (
            WellPlaced-remark before head (current - head.data_at) after (omega (arith, v.bumps))
              v.placed))
          (record { nonnull = f.nonnull; inside = f.inside; marked = omega arith })
          (subst (Every (Apart block)) (sym (append_assoc before (marked ∷ []) after))
            (Every-remark (Apart block) before head marked after (λ h. h) f.apart))

    outside : (x : ℕ) → (x < d) ⊎ (d + s ≤ x) → (x < p) ⊎ (p + size ≤ x)
    outside x h = omega arith

    grown_unused :
        (x : ℕ) → Occupied (Chain.chain before head after) current x → (x < p) ⊎ (p + size ≤ x)
    grown_unused x (inl h) = outside x (
        Marked-Apart block before x
          (Every-front IsPlaced before (head ∷ after) (WellPlaced-IsPlaced _ v.placed))
          (Every-front (Apart block) before (head ∷ after) f.apart) h)
    grown_unused x (inr (inl h)) =
        outside x (elim (Every-back (Apart block) before (head ∷ after) f.apart).0 [
          | inl l ↦ inr (omega arith)
          | inr r ↦ inl (omega (arith, v.bumps))
        ])
    grown_unused x (inr (inr h)) = absurd (not-Marked_zero after x v.bumps.3 h)

    grown_kept :
        (x : ℕ) → Occupied (Chain.chain before head after) current x → Occupied grown (p + size) x
    grown_kept x (inl h) = inl (Marked-append_left before (marked ∷ []) x h)
    grown_kept x (inr (inl h)) =
        inl (Marked-append_right before (marked ∷ []) x (inl (omega arith)))
    grown_kept x (inr (inr h)) = absurd (not-Marked_zero after x v.bumps.3 h)

    pub grown-Gives :
        Gives
          (arena current end (Chain.chain before head after) block_size total)
          size
          alignment
          p
          (arena (p + size) (d + s) grown block_size total')
    grown-Gives = record {
      valid = record { placed = grown-WellPlaced; bumps = (omega arith, omega arith, refl, tt) };
      aligned = multiple;
      nonnull = omega (arith, f.nonnull);
      unused = grown_unused;
      kept = grown_kept;
      taken = λ x lo hi. inr (inl (omega arith));
    }
