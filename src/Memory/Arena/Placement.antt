-- ===== src/Memory/Arena/Placement.antt =====
-- Where the blocks of an arena lie, and which addresses are handed out.
use jellybean.Base.{ℕ, ◌+◌, ◌^◌, ◌≤◌, ◌<◌, ◌≡◌, ◌⊎◌, inl, inr, arith, List, [], ◌∷◌, ◌++◌}
use jellybean.Memory.Arena.{Arena, Block, Chain, linked}

-- All members of a list have a property.
module _ {ℓ κ} {A : Type ℓ} (P : A → Type κ) where
  abbrev pub Every : List A → Type κ
  Every [] = Unit
  Every (first ∷ rest) = P first × Every rest

-- Two blocks share no byte.
abbrev pub Apart : Block → Block → Type 0
Apart b c = (b.data_at + b.size ≤ c.data_at) ⊎ (c.data_at + c.size ≤ b.data_at)

-- A block lies in the address space, off the null pointer, and its mark lies in it.
pub record IsPlaced (b : Block) : Type 0 where
  pub nonnull : 0 < b.data_at
  pub inside : b.data_at + b.size < 2 ^ 64
  pub marked : b.used ≤ b.size

abbrev pub WellPlaced : List Block → Type 0
WellPlaced [] = Unit
WellPlaced (b ∷ bs) = IsPlaced b × Every (Apart b) bs × WellPlaced bs

-- The bump pointer runs inside the head, and behind the head nothing is in use.
abbrev pub Bumps : Chain → ℕ → ℕ → Type 0
Bumps Chain.empty current end = (current ≡ 0) × (end ≡ 0)
Bumps (Chain.chain before head after) current end =
    (head.data_at ≤ current)
    × (current ≤ end)
    × (end ≡ head.data_at + head.size)
    × Every (λ b. b.used ≡ 0) after

pub record IsValid (a : Arena) : Type 0 where
  pub placed : WellPlaced (linked a.blocks)
  pub bumps : Bumps a.blocks a.current a.end

-- An address below the mark of one of the blocks.
abbrev pub Marked : List Block → ℕ → Type 0
Marked [] x = ⊥
Marked (b ∷ bs) x = ((b.data_at ≤ x) × (x < b.data_at + b.used)) ⊎ Marked bs x

-- The addresses handed out: below the marks, and in the head below the bump pointer.
abbrev pub Occupied : Chain → ℕ → ℕ → Type 0
Occupied Chain.empty current x = ⊥
Occupied (Chain.chain before head after) current x =
    Marked before x ⊎ ((head.data_at ≤ x) × (x < current)) ⊎ Marked after x

abbrev pub InUse : Arena → ℕ → Type 0
InUse a x = Occupied a.blocks a.current x

-- The storage that malloc answers with lies off the null pointer, in the address space, and apart
-- from the blocks that the arena holds.
pub record IsFresh (a : Arena) (data_at size : ℕ) : Type 0 where
  pub nonnull : 0 < data_at
  pub inside : data_at + size < 2 ^ 64
  pub apart : Every (Apart (record { data_at = data_at; size = size; used = 0 })) (linked a.blocks)

module _ {ℓ κ} {A : Type ℓ} (P : A → Type κ) where
  pub Every-append : (front back : List A) → Every P front → Every P back → Every P (front ++ back)
  Every-append [] back none_here others = others
  Every-append (first ∷ rest) back every others = (every.0, Every-append rest back every.1 others)

  pub Every-front : (front back : List A) → Every P (front ++ back) → Every P front
  Every-front [] back every = tt
  Every-front (first ∷ rest) back every = (every.0, Every-front rest back every.1)

  pub Every-back : (front back : List A) → Every P (front ++ back) → Every P back
  Every-back [] back every = every
  Every-back (first ∷ rest) back every = Every-back rest back every.1

pub Marked-append_left : (xs ys : List Block) (x : ℕ) → Marked xs x → Marked (xs ++ ys) x
Marked-append_left [] ys x h = absurd h
Marked-append_left (b ∷ bs) ys x (inl h) = inl h
Marked-append_left (b ∷ bs) ys x (inr h) = inr (Marked-append_left bs ys x h)

pub Marked-append_right : (xs ys : List Block) (x : ℕ) → Marked ys x → Marked (xs ++ ys) x
Marked-append_right [] ys x h = h
Marked-append_right (b ∷ bs) ys x h = inr (Marked-append_right bs ys x h)

-- Nothing is below marks at 0.
pub not-Marked_zero : (bs : List Block) (x : ℕ) → Every (λ b. b.used ≡ 0) bs → ¬ Marked bs x
not-Marked_zero [] x z h = h
not-Marked_zero (b ∷ bs) x z (inl h) = omega (arith, z.0)
not-Marked_zero (b ∷ bs) x z (inr h) = not-Marked_zero bs x z.1 h

pub IsPlaced-at :
    (xs : List Block) (b : Block) (ys : List Block) → WellPlaced (xs ++ (b ∷ ys)) → IsPlaced b
IsPlaced-at [] b ys w = w.0
IsPlaced-at (x ∷ xs) b ys w = IsPlaced-at xs b ys w.2

-- An address below a mark of the list lies outside a block that is apart from the list.
pub Marked-Apart :
    (c : Block) (bs : List Block) (x : ℕ)
    → Every IsPlaced bs
    → Every (Apart c) bs
    → Marked bs x
    → (x < c.data_at) ⊎ (c.data_at + c.size ≤ x)
Marked-Apart c [] x p a h = absurd h
Marked-Apart c (b ∷ bs) x p a (inl h) = elim a.0 [
  | inl l ↦ inr (omega arith)
  | inr r ↦ inl (omega (arith, p.0.marked))
]
Marked-Apart c (b ∷ bs) x p a (inr h) = Marked-Apart c bs x p.1 a.1 h

pub WellPlaced-IsPlaced : (bs : List Block) → WellPlaced bs → Every IsPlaced bs
WellPlaced-IsPlaced [] w = tt
WellPlaced-IsPlaced (b ∷ bs) w = (w.0, WellPlaced-IsPlaced bs w.2)

-- The blocks ahead of a block of the list are apart from it.
pub before-Apart :
    (xs : List Block) (b : Block) (ys : List Block)
    → WellPlaced (xs ++ (b ∷ ys))
    → Every (Apart b) xs
before-Apart [] b ys w = tt
before-Apart (x ∷ xs) b ys w =
    (turn (Every-back (Apart x) xs (b ∷ ys) w.1).0, before-Apart xs b ys w.2)
  where
    turn : Apart x b → Apart b x
    turn (inl h) = inr h
    turn (inr h) = inl h

-- A list without its end, and with a block apart from the rest at its end.
pub WellPlaced-extend :
    (xs ys : List Block) (c : Block)
    → WellPlaced (xs ++ ys)
    → IsPlaced c
    → Every (Apart c) (xs ++ ys)
    → WellPlaced (xs ++ (c ∷ []))
WellPlaced-extend [] ys c w p a = (p, tt, tt)
WellPlaced-extend (x ∷ xs) ys c w p a = (
  w.0,
  Every-append (Apart x) xs (c ∷ []) (Every-front (Apart x) xs ys w.1) (turn a.0, tt),
  WellPlaced-extend xs ys c w.2 p a.1,
)
  where
    turn : Apart c x → Apart x c
    turn (inl h) = inr h
    turn (inr h) = inl h

-- A new mark on a block moves no block.
pub Every-remark :
    (P : Block → Type 0) (xs : List Block) (b c : Block) (ys : List Block)
    → (P b → P c)
    → Every P (xs ++ (b ∷ ys))
    → Every P (xs ++ (c ∷ ys))
Every-remark P [] b c ys f p = (f p.0, p.1)
Every-remark P (x ∷ xs) b c ys f p = (p.0, Every-remark P xs b c ys f p.1)

pub WellPlaced-remark :
    (xs : List Block) (b : Block) (u : ℕ) (ys : List Block)
    → u ≤ b.size
    → WellPlaced (xs ++ (b ∷ ys))
    → WellPlaced (xs ++ (record b { used = u } ∷ ys))
WellPlaced-remark [] b u ys le w =
    (record { nonnull = w.0.nonnull; inside = w.0.inside; marked = le }, w.1, w.2)
WellPlaced-remark (x ∷ xs) b u ys le w = (
  w.0,
  Every-remark (Apart x) xs b (record b { used = u }) ys (λ h. h) w.1,
  WellPlaced-remark xs b u ys le w.2,
)
