-- ===== src/Actor/Message/Safe.antt =====
-- What the commands of a program on messages keep.
use mathlib.Core.Path.{subst}
use jellybean.Base
use jellybean.Base.{
  ℕ, zero, suc, ◌+◌, ◌≤◌, ◌<◌, ◌≡◌, ◌≢◌, ◌⊎◌, inl, inr, refl, sym, ap, ◌∙◌, arith, Bool, true,
  false, Bool-cases, ℕ_discrete, Option, none, some, List, [], ◌∷◌, length, get_elem?,
  get_elem?-set_ne, ◌==◌, if◌then◌else◌,
}
use jellybean.Actor.Message.{
  Heap, Run, done, aborted, Message, new_message, destroy, copy, set_payload, move_from,
}
use jellybean.Actor.Message.Owned.{
  live, owns, owners, HasBody, AllBodies, owners-set, owns-owners, AllBodies-set, AllBodies-get,
  owns-inline, IsOwned, destroy-Frees,
}
use jellybean.Actor.Message.Gains.{IsMalloc, Gains, copy-Gains, set_payload-Gains, move_from-Hands}
use jellybean.Actor.Message.Program.{
  Objects, and_then, drop, copy_assign, move_assign, set, on_one, step,
}

-- Every block of the heap has one owner among the objects.
pub record IsHeap (ms : Objects) (h : Heap) : Type 0 where
  pub bodies : AllBodies ms
  pub once : (p : ℕ) → owners p ms ≡ live (h p)

-- The program is aborted, or it goes on with a heap in order; it is not at fault.
abbrev pub IsSafe : Run Objects → Type 0
IsSafe r = (r ≡ aborted) ⊎ ((ms : Objects) × (h : Heap) × (r ≡ done ms h) × IsHeap ms h)

pub owned :
    (ms : Objects) (h : Heap) (i : ℕ) (m : Message)
    → IsHeap ms h
    → get_elem? ms i ≡ some m
    → IsOwned h m
owned ms h i m v e =
    (AllBodies-get ms i m v.bodies e, λ p. omega (arith, v.once p, owns-owners p ms i m e))

-- Two objects own no more than all.
owns-owns :
    (p : ℕ) (ms : Objects) (i j : ℕ) (a b : Message)
    → i ≢ j
    → get_elem? ms i ≡ some a
    → get_elem? ms j ≡ some b
    → owns p a + owns p b ≤ owners p ms
owns-owns p ms i j a b ne e e' = omega (
  arith,
  owners-set p ms i a new_message e,
  owns-owners p (Base.set ms i new_message) j b (get_elem?-set_ne ms new_message ne ∙ e'),
)

pub on_one-IsSafe :
    (ms : Objects) (o : Option Message) (h : Heap) (k : Message → Run Objects)
    → IsHeap ms h
    → ((m : Message) → o ≡ some m → IsSafe (k m))
    → IsSafe (on_one ms o h k)
on_one-IsSafe ms none h k v f = inr (ms, h, refl, v)
on_one-IsSafe ms (some m) h k v f = f m refl

pub unless-IsSafe :
    (i j : ℕ) {x y : Run Objects} → IsSafe x → (i ≢ j → IsSafe y) → IsSafe (if i == j then x else y)
unless-IsSafe i j p q = elim (ℕ_discrete i j) [
  | yes same ↦ rw (let e : (i == j) ≡ true = ground (arith, same) in e) p
  | no other ↦ rw (let e : (i == j) ≡ false = ground (arith, other) in e) (q other)
]

-- In place of a message there is one that owns another block.
abbrev Swaps : Message → Heap → Run Message → Type 0
Swaps a h r =
    (r ≡ aborted)
    ⊎ ((c : Message) × (h' : Heap) × (r ≡ done c h')
        × HasBody c
        × ((p : ℕ) → live (h' p) + owns p a ≡ live (h p) + owns p c))

-- What a message gains after another is destroyed takes its place.
Gains-Swaps :
    (a : Message) (h h' : Heap) (r : Run Message)
    → ((p : ℕ) → live (h' p) + owns p a ≡ live (h p))
    → Gains h' r
    → Swaps a h r
Gains-Swaps a h h' r frees (inl e) = inl e
Gains-Swaps a h h' r frees (inr (c, h'', e, b, o)) =
    inr (c, h'', e, b, λ p. omega (arith, frees p, o p))

pub Swaps-IsSafe :
    (ms : Objects) (h : Heap) (i : ℕ) (a : Message) (r : Run Message)
    → IsHeap ms h
    → get_elem? ms i ≡ some a
    → Swaps a h r
    → IsSafe (and_then r (λ c h'. done (Base.set ms i c) h'))
Swaps-IsSafe ms h i a r v e (inl stop) =
    inl (ap (λ t. and_then t (λ c h'. done (Base.set ms i c) h')) stop)
Swaps-IsSafe ms h i a r v e (inr (c, h', is_done, b, o)) = inr (
  Base.set ms i c,
  h',
  ap (λ t. and_then t (λ c h'. done (Base.set ms i c) h')) is_done,
  record {
    bodies = AllBodies-set ms i c v.bodies b;
    once = λ p. omega (arith, owners-set p ms i a c e, v.once p, o p);
  },
)

module _ (malloc : Heap → ℕ → Option ℕ) (ok : IsMalloc malloc) where
  copy_assign-Swaps :
      (a b : Message) (h : Heap)
      → IsOwned h a
      → HasBody b
      → ((p : ℕ) → owns p a + owns p b ≤ live (h p))
      → Swaps a h (copy_assign malloc a b h)
  unfolding copy_assign
  copy_assign-Swaps a b h own body both =
      let (a', h', is_done, gone, frees) = destroy-Frees a h own in
      let gains = copy-Gains malloc ok b h' (body, λ p. omega (arith, both p, frees p)) in
      subst (Swaps a h) (sym (ap (λ t. and_then t (λ m h''. copy malloc b h'')) is_done))
        (Gains-Swaps a h h' (copy malloc b h') frees gains)

  pub assign-IsSafe :
      (ms : Objects) (h : Heap) (i j : ℕ) (a b : Message)
      → IsHeap ms h
      → i ≢ j
      → get_elem? ms i ≡ some a
      → get_elem? ms j ≡ some b
      → IsSafe (and_then (copy_assign malloc a b h) (λ c h'. done (Base.set ms i c) h'))
  assign-IsSafe ms h i j a b v ne e e' = Swaps-IsSafe ms h i a (copy_assign malloc a b h) v e (
      copy_assign-Swaps a b h (owned ms h i a v e) (AllBodies-get ms j b v.bodies e')
        (λ p. omega (arith, v.once p, owns-owns p ms i j a b ne e e')))

  pub set-Swaps :
      (a : Message) (val : List ℕ) (h : Heap) → IsOwned h a → Swaps a h (set malloc a val h)
  unfolding set
  set-Swaps a val h own =
      let (a', h', is_done, gone, frees) = destroy-Frees a h own in
      subst (Swaps a h) (sym (ap (λ t. and_then t (λ m h''. set_payload malloc val m h'')) is_done))
        (Gains-Swaps a h h' (set_payload malloc val a' h') frees
          (set_payload-Gains malloc ok val a' h'))

  pub move_assign-IsSafe :
      (ms : Objects) (h : Heap) (i j : ℕ) (a b : Message)
      → IsHeap ms h
      → i ≢ j
      → get_elem? ms i ≡ some a
      → get_elem? ms j ≡ some b
      → IsSafe (
          and_then
            (move_assign malloc a b h)
            (λ c h'. done (Base.set (Base.set ms i c.0) j c.1) h'))
  unfolding move_assign
  move_assign-IsSafe ms h i j a b v ne e e' =
      let (a', h', is_done, gone, frees) = destroy-Frees a h (owned ms h i a v e) in
      let (n, left, sum) = move_from-Hands b (AllBodies-get ms j b v.bodies e') in
      inr (
        Base.set (Base.set ms i (move_from b).0) j (move_from b).1,
        h',
        ap
            (λ t.
              and_then (and_then t (λ m h''. done (move_from b) h''))
                (λ c h''. done (Base.set (Base.set ms i c.0) j c.1) h''))
            is_done,
        record {
          bodies =
              AllBodies-set (Base.set ms i (move_from b).0) j (move_from b).1
                (AllBodies-set ms i (move_from b).0 v.bodies n) left;
          once = λ p. omega (
            arith,
            owners-set p ms i a (move_from b).0 e,
            owners-set p (Base.set ms i (move_from b).0) j b (move_from b).1
                (get_elem?-set_ne ms (move_from b).0 ne ∙ e'),
            sum p,
            frees p,
            v.once p,
            owns-owns p ms i j a b ne e e',
          );
        },
      )

  pub drop-IsSafe : (ms : Objects) (h : Heap) → IsHeap ms h → IsSafe (step malloc ms drop h)
  unfolding step
  drop-IsSafe [] h v = inr ([], h, refl, v)
  drop-IsSafe (m ∷ ms) h v =
      let (m', h', is_done, gone, frees) = destroy-Frees m h (owned (m ∷ ms) h 0 m v refl) in
      inr (
        ms,
        h',
        ap (λ t. and_then t (λ a h''. done ms h'')) is_done,
        record { bodies = v.bodies.1; once = λ p. omega (arith, v.once p, frees p) },
      )

  pub create-IsSafe : (ms : Objects) (h : Heap) → IsHeap ms h → IsHeap (new_message ∷ ms) h
  create-IsSafe ms h v = record {
    bodies = (inl refl, v.bodies);
    once = λ p. omega (arith, v.once p);
  }

  pub copy_new-IsSafe :
      (ms : Objects) (h : Heap) (i : ℕ) (m : Message)
      → IsHeap ms h
      → get_elem? ms i ≡ some m
      → IsSafe (and_then (copy malloc m h) (λ m' h'. done (m' ∷ ms) h'))
  copy_new-IsSafe ms h i m v e = elim (copy-Gains malloc ok m h (owned ms h i m v e)) [
    | inl stop ↦ inl (ap (λ t. and_then t (λ m' h'. done (m' ∷ ms) h')) stop)
    | inr (c, h', is_done, b, o) ↦ inr (
      c ∷ ms,
      h',
      ap (λ t. and_then t (λ m' h''. done (m' ∷ ms) h'')) is_done,
      record { bodies = (b, v.bodies); once = λ p. omega (arith, v.once p, o p) },
    )
  ]

  pub move_new-IsHeap :
      (ms : Objects) (h : Heap) (i : ℕ) (m : Message)
      → IsHeap ms h
      → get_elem? ms i ≡ some m
      → IsHeap ((move_from m).0 ∷ Base.set ms i (move_from m).1) h
  move_new-IsHeap ms h i m v e =
      let (n, left, sum) = move_from-Hands m (AllBodies-get ms i m v.bodies e) in
      record {
        bodies = (n, AllBodies-set ms i (move_from m).1 v.bodies left);
        once = λ p. omega (arith, owners-set p ms i m (move_from m).1 e, sum p, v.once p);
      }

  pub destroy_one-IsSafe :
      (ms : Objects) (h : Heap) (i : ℕ) (m : Message)
      → IsHeap ms h
      → get_elem? ms i ≡ some m
      → IsSafe (and_then (destroy m h) (λ m' h'. done (Base.set ms i m') h'))
  destroy_one-IsSafe ms h i m v e =
      let (m', h', is_done, gone, frees) = destroy-Frees m h (owned ms h i m v e) in
      Swaps-IsSafe ms h i m (destroy m h) v e
        (inr (m', h', is_done, inl gone, λ p. omega (arith, frees p, owns-inline p m' gone)))
