-- ===== src/Actor/Message/Owned.antt =====
-- Who owns a block of the heap, and what the members of a message do to that.
use mathlib.Core.Path.{subst}
use jellybean.Base.{
  ℕ, zero, suc, ◌+◌, ◌≤◌, ◌≡◌, ◌≢◌, ◌⊎◌, inl, inr, refl, ap, ◌∙◌, arith, true, false, Option, none,
  some, List, [], ◌∷◌, get_elem?, set, ◌==◌, if◌then◌else◌,
}
use jellybean.Actor.Message.{
  Heap, put_block, done, Storage, inline_data, heap_data, Message, free_block, destroy_storage,
  destroy,
}

abbrev pub live : Option (List ℕ) → ℕ
live none = 0
live (some bytes) = 1

abbrev pub is_at : ℕ → Storage → ℕ
is_at p (inline_data bytes) = 0
is_at p (heap_data q n) = if q == p then 1 else 0

-- Whether a message has its payload in the block at an address.
abbrev pub owns : ℕ → Message → ℕ
owns p m = if m.is_inline then 0 else is_at p m.storage

abbrev pub owners : ℕ → List Message → ℕ
owners p [] = 0
owners p (m ∷ ms) = owns p m + owners p ms

-- A payload on the heap has an address.
abbrev pub HasBody : Message → Type 0
HasBody m =
    (m.is_inline ≡ true)
    ⊎ ((p n : ℕ) × (m.is_inline ≡ false) × (m.storage ≡ heap_data p n) × (p ≢ 0))

abbrev pub AllBodies : List Message → Type 0
AllBodies [] = Unit
AllBodies (m ∷ ms) = HasBody m × AllBodies ms

pub owners-set :
    (p : ℕ) (ms : List Message) (i : ℕ) (m m' : Message)
    → get_elem? ms i ≡ some m
    → owners p (set ms i m') + owns p m ≡ owners p ms + owns p m'
owners-set p [] i m m' h = cc
owners-set p (n ∷ ms) zero m m' h = omega (arith, ap (owns p) (let e : n ≡ m = cc in e))
owners-set p (n ∷ ms) (suc i) m m' h = omega (arith, owners-set p ms i m m' h)

pub owns-owners :
    (p : ℕ) (ms : List Message) (i : ℕ) (m : Message)
    → get_elem? ms i ≡ some m
    → owns p m ≤ owners p ms
owns-owners p [] i m h = cc
owns-owners p (n ∷ ms) zero m h = omega (arith, ap (owns p) (let e : n ≡ m = cc in e))
owns-owners p (n ∷ ms) (suc i) m h = omega (arith, owns-owners p ms i m h)

pub AllBodies-set :
    (ms : List Message) (i : ℕ) (m : Message) → AllBodies ms → HasBody m → AllBodies (set ms i m)
AllBodies-set [] i m b h = tt
AllBodies-set (n ∷ ms) zero m b h = (h, b.1)
AllBodies-set (n ∷ ms) (suc i) m b h = (b.0, AllBodies-set ms i m b.1 h)

pub AllBodies-get :
    (ms : List Message) (i : ℕ) (m : Message) → AllBodies ms → get_elem? ms i ≡ some m → HasBody m
AllBodies-get [] i m b h = cc
AllBodies-get (n ∷ ms) zero m b h = subst HasBody (let e : n ≡ m = cc in e) b.0
AllBodies-get (n ∷ ms) (suc i) m b h = AllBodies-get ms i m b.1 h

pub owns-inline : (p : ℕ) (m : Message) → m.is_inline ≡ true → owns p m ≡ 0
owns-inline p m h = rw h refl

pub owns-heap :
    (p q n : ℕ) (m : Message)
    → m.is_inline ≡ false
    → m.storage ≡ heap_data q n
    → owns p m ≡ (if q == p then 1 else 0)
owns-heap p q n m h h' = rw (h, h') refl

pub live-some : (b : Option (List ℕ)) → 1 ≤ live b → (bytes : List ℕ) × (b ≡ some bytes)
live-some none h = absurd (omega (arith, h))
live-some (some bytes) h = (bytes, refl)

-- The message may be destroyed: its block is live.
abbrev pub IsOwned : Heap → Message → Type 0
IsOwned h m = HasBody m × ((p : ℕ) → owns p m ≤ live (h p))

destroy-inline : (m : Message) (h : Heap) → m.is_inline ≡ true → destroy m h ≡ done m h
unfolding destroy
destroy-inline m h e = rw e refl

destroy-heap :
    (m : Message) (h : Heap) (p n : ℕ) (bytes : List ℕ)
    → m.is_inline ≡ false
    → m.storage ≡ heap_data p n
    → p ≢ 0
    → h p ≡ some bytes
    → destroy m h
      ≡ done (record m { storage = heap_data 0 0; is_inline = true }) (put_block h p none)
unfolding destroy destroy_storage free_block
destroy-heap m h p n bytes e e' ne b = ground (arith, e, e', ne, b)

-- `destroy` of an owner gives back its block and no other, and leaves a message that owns none.
pub destroy-Frees :
    (m : Message) (h : Heap)
    → IsOwned h m
    → (m' : Message) × (h' : Heap) × (destroy m h ≡ done m' h')
      × (m'.is_inline ≡ true)
      × ((p : ℕ) → live (h' p) + owns p m ≡ live (h p))
destroy-Frees m h (inl e, o) =
    (m, h, destroy-inline m h e, e, λ p. omega (arith, owns-inline p m e))
destroy-Frees m h (inr (p, n, e, e', ne), o) =
    let at : owns p m ≡ 1 = owns-heap p p n m e e' ∙ ground arith in
    let (bytes, b) = live-some (h p) (omega (arith, at, o p)) in
    (
      record m { storage = heap_data 0 0; is_inline = true },
      put_block h p none,
      destroy-heap m h p n bytes e e' ne b,
      refl,
      λ q. ground (arith, owns-heap q p n m e e', b),
    )
