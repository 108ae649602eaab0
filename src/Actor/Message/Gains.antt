-- ===== src/Actor/Message/Gains.antt =====
-- What a copy, a move and a new value own.
use mathlib.Core.Path.{subst}
use jellybean.Base.{
  ℕ, ◌+◌, ◌≡◌, ◌≢◌, ◌⊎◌, inl, inr, refl, sym, ◌∙◌, arith, true, false, Bool-cases, Option, none,
  some, Option-cases, List, length, take, leb,
}
use jellybean.Actor.Message.{
  Heap, put_block, Run, done, aborted, inline_size, inline_data, heap_data, Message, new_message,
  copy_block, copy_storage, copy, set_payload, move_from,
}
use jellybean.Actor.Message.Owned.{live, owns, HasBody, IsOwned, owns-inline, owns-heap, live-some}

-- What the manual says of `malloc`: the block that it gives is new, and not at the null pointer.
abbrev pub IsMalloc : (Heap → ℕ → Option ℕ) → Type 0
IsMalloc malloc = (h : Heap) (n p : ℕ) → malloc h n ≡ some p → (h p ≡ none) × (p ≢ 0)

-- Without an abort there is a message that owns what is on the heap now and was not before.
abbrev pub Gains : Heap → Run Message → Type 0
Gains h r =
    (r ≡ aborted)
    ⊎ ((m : Message) × (h' : Heap) × (r ≡ done m h')
        × HasBody m
        × ((p : ℕ) → live (h' p) ≡ live (h p) + owns p m))

module _ (malloc : Heap → ℕ → Option ℕ) (ok : IsMalloc malloc) where
  copy_block-Gains :
      (o : Option ℕ) (other : Message) (n : ℕ) (source : List ℕ) (h : Heap)
      → malloc h n ≡ o
      → other.is_inline ≡ false
      → Gains h (copy_block o other n (some source) h)
  unfolding copy_block
  copy_block-Gains none other n source h e heap = inl refl
  copy_block-Gains (some p) other n source h e heap =
      let (fresh, ne) = ok h n p e in
      inr (
        record other { storage = heap_data p n },
        put_block h p (some (take n source)),
        refl,
        inr (p, n, heap, refl, ne),
        λ q.
            ground
              (arith, owns-heap q p n (record other { storage = heap_data p n }) heap refl, fresh),
      )

  copy-inline :
      (other : Message) (h : Heap) → other.is_inline ≡ true → copy malloc other h ≡ done other h
  unfolding copy
  copy-inline other h e = rw e refl

  copy-heap :
      (other : Message) (h : Heap) (p n : ℕ) (bytes : List ℕ)
      → other.is_inline ≡ false
      → other.storage ≡ heap_data p n
      → h p ≡ some bytes
      → copy malloc other h ≡ copy_block (malloc h n) other n (some bytes) h
  unfolding copy copy_storage
  copy-heap other h p n bytes e e' b = rw (e, e', b) refl

  pub copy-Gains : (other : Message) (h : Heap) → IsOwned h other → Gains h (copy malloc other h)
  copy-Gains other h (inl e, o) =
      inr (other, h, copy-inline other h e, inl e, λ p. omega (arith, owns-inline p other e))
  copy-Gains other h (inr (p, n, e, e', ne), o) =
      let at : owns p other ≡ 1 = owns-heap p p n other e e' ∙ ground arith in
      let (bytes, b) = live-some (h p) (omega (arith, at, o p)) in
      subst (Gains h) (sym (copy-heap other h p n bytes e e' b))
        (copy_block-Gains (malloc h n) other n bytes h refl e)

  set_payload-small :
      (val : List ℕ) (m : Message) (h : Heap)
      → leb (length val) inline_size ≡ true
      → set_payload malloc val m h
        ≡ done (record m { storage = inline_data val; is_inline = true }) h
  unfolding set_payload
  set_payload-small val m h e = rw e refl

  set_payload-none :
      (val : List ℕ) (m : Message) (h : Heap)
      → leb (length val) inline_size ≡ false
      → malloc h (length val) ≡ none
      → set_payload malloc val m h ≡ aborted
  unfolding set_payload
  set_payload-none val m h e e' = rw (e, e') refl

  set_payload-some :
      (val : List ℕ) (m : Message) (h : Heap) (p : ℕ)
      → leb (length val) inline_size ≡ false
      → malloc h (length val) ≡ some p
      → set_payload malloc val m h
        ≡ done
            (record m { storage = heap_data p (length val); is_inline = false })
            (put_block h p (some val))
  unfolding set_payload
  set_payload-some val m h p e e' = rw (e, e') refl

  pub set_payload-Gains :
      (val : List ℕ) (m : Message) (h : Heap) → Gains h (set_payload malloc val m h)
  set_payload-Gains val m h = elim (Bool-cases (leb (length val) inline_size)) [
    | inl small ↦ inr (
      record m { storage = inline_data val; is_inline = true },
      h,
      set_payload-small val m h small,
      inl refl,
      λ p. omega arith,
    )
    | inr large ↦ elim (Option-cases (malloc h (length val))) [
      | inl e ↦ inl (set_payload-none val m h large e)
      | inr (p, e) ↦
          let (fresh, ne) = ok h (length val) p e in
          inr (
            record m { storage = heap_data p (length val); is_inline = false },
            put_block h p (some val),
            set_payload-some val m h p large e,
            inr (p, length val, refl, refl, ne),
            λ q. ground (arith, fresh),
          )
    ]
  ]

-- The two messages own together what the one did.
abbrev pub Hands : Message → Message × Message → Type 0
Hands other r = HasBody r.0 × HasBody r.1 × ((p : ℕ) → owns p r.0 + owns p r.1 ≡ owns p other)

move_from-inline : (other : Message) → other.is_inline ≡ true → move_from other ≡ (other, other)
unfolding move_from
move_from-inline other e = ground (arith, e)

move_from-heap :
    (other : Message)
    → other.is_inline ≡ false
    → move_from other ≡ (other, record other { storage = new_message.storage; is_inline = true })
unfolding move_from
move_from-heap other e = ground (arith, e)

-- A move hands the block over.
pub move_from-Hands : (other : Message) → HasBody other → Hands other (move_from other)
move_from-Hands other (inl e) =
    subst (Hands other) (sym (move_from-inline other e))
      (inl e, inl e, λ p. omega (arith, owns-inline p other e))
move_from-Hands other (inr (p, n, e, e', ne)) =
    subst (Hands other) (sym (move_from-heap other e))
      (inr (p, n, e, e', ne), inl refl, λ q. omega arith)
