-- ===== src/Model/Registry/Laws.antt =====
-- The registry as a map from names to metadata.
use jellybean.Base.{
  ℕ, ◌+◌, ◌<◌, ◌≤◌, ◌≡◌, ◌≢◌, refl, sym, ap, ◌∙◌, arith, ◌==◌, true, false, inl, inr, Option, none,
  some, ◌∷◌,
}
use jellybean.Base.Text.{Text, text_eq, text_eq_iff, Text-cases}
use jellybean.Base.Dict.{Dict, lookup, without, lookup-cons, lookup-without}
use jellybean.Inference.Torch.{TorchBackend}
use jellybean.Model.Registry.{
  ModelMetadata, Models, no_models, put, register_model, unregister, store_state, store_backend,
  ModelState,
}

abbrev pub look {ℓ} : {A : Type ℓ} → (ℕ → Option A) → Option ℕ → Option A
look object none = none
look object (some p) = object p

-- What the registry knows by a name.
abbrev pub view {ℓ} : {Module : Type ℓ} → Models Module → Text → Option (ModelMetadata Module)
view w n = look w.object (lookup n w.models)

-- A name's pointer is below `k` and leads to an object of that name.
pub record IsBelow {ℓ} {Module : Type ℓ} (k : ℕ) (w : Models Module) : Type ℓ where
  pub holds :
      (n : Text) (p : ℕ)
      → lookup n w.models ≡ some p
      → (m : ModelMetadata Module) × (w.object p ≡ some m) × (m.config.name ≡ n) × (p < k)

-- The registry's pointers lead to objects of their names, made earlier than the next one.
abbrev pub IsValid {ℓ} : {Module : Type ℓ} → Models Module → Type ℓ
IsValid w = IsBelow w.next w

text_eq_refl : (t : Text) → text_eq t t ≡ true
text_eq_refl t = (text_eq_iff t t).1 refl

text_eq_ne : (s t : Text) → s ≢ t → text_eq s t ≡ false
text_eq_ne s t h = ground (arith, text_eq_iff s t)

eq_self : (p : ℕ) → (p == p) ≡ true
eq_self p = ground arith

eq_ne : (p q : ℕ) → p ≢ q → (p == q) ≡ false
eq_ne p q h = ground arith

module _ {ℓ} {A : Type ℓ} where
  lookup-cons_self : (n : Text) (v : A) (l : Dict A) → lookup n ((n, v) ∷ l) ≡ some v
  lookup-cons_self n v l = rw (lookup-cons, text_eq_refl)

  lookup-cons_ne : (n j : Text) (v : A) (l : Dict A) → n ≢ j → lookup j ((n, v) ∷ l) ≡ lookup j l
  lookup-cons_ne n j v l h = rw (lookup-cons, text_eq_ne n j h)

  lookup-without_self : (n : Text) (l : Dict A) → lookup n (without n l) ≡ none
  lookup-without_self n l = rw (lookup-without, text_eq_refl)

  lookup-without_ne : (n j : Text) (l : Dict A) → n ≢ j → lookup j (without n l) ≡ lookup j l
  lookup-without_ne n j l h = rw (lookup-without, text_eq_ne n j h)

module _ {ℓ} {Module : Type ℓ} where
  pub no_models-IsValid : IsValid (no_models {Module = Module})
  unfolding lookup
  no_models-IsValid = record { holds = λ n p h. absurd (cc h) }

  put_self :
      (f : ℕ → Option (ModelMetadata Module)) (p : ℕ) (m : Option (ModelMetadata Module))
      → put f p m p ≡ m
  put_self f p m = rw (eq_self p)

  put_at :
      (f : ℕ → Option (ModelMetadata Module)) (p q : ℕ) (m : Option (ModelMetadata Module))
      → p ≡ q
      → put f p m q ≡ m
  put_at f p q m e = ground arith

  put_ne :
      (f : ℕ → Option (ModelMetadata Module)) (p q : ℕ) (m : Option (ModelMetadata Module))
      → p ≢ q
      → put f p m q ≡ f q
  put_ne f p q m h = rw (eq_ne p q h)

  -- Two names do not share a pointer.
  apart :
      (k : ℕ) (w : Models Module) (n j : Text) (p q : ℕ)
      → IsBelow k w
      → lookup n w.models ≡ some p
      → lookup j w.models ≡ some q
      → n ≢ j
      → p ≢ q
  apart k w n j p q v hp hq ne e =
      let (m, is_m, name_m, _) = v.holds n p hp in
      let (m', is_m', name_m', _) = v.holds j q hq in ne (cc (e, is_m, is_m', name_m, name_m'))

look-put_ne {ℓ} :
    {Module : Type ℓ} (f : ℕ → Option (ModelMetadata Module)) (p : ℕ)
    (m : Option (ModelMetadata Module)) (o : Option ℕ)
    → ((q : ℕ) → o ≡ some q → p ≢ q)
    → look (put f p m) o ≡ look f o
look-put_ne f p m none h = refl
look-put_ne f p m (some q) h = put_ne f p q m (h q refl)

-- `w` differs from `w0` in the name `n`, which now leads through `p` to the object `m`.
pub record Holds {ℓ} {Module : Type ℓ} (k : ℕ) (w0 w : Models Module) (n : Text) (p : ℕ)
    (m : ModelMetadata Module) : Type ℓ where
  pub below : IsBelow k w
  pub named : lookup n w.models ≡ some p
  pub held : w.object p ≡ some m
  pub others : (j : Text) → n ≢ j → view w j ≡ view w0 j
  pub after : w.next ≡ w0.next

-- `w` differs from `w0` in the name `n`, which it does not know.
pub record Lacks {ℓ} {Module : Type ℓ} (k : ℕ) (w0 w : Models Module) (n : Text) : Type ℓ where
  pub below : IsBelow k w
  pub gone : lookup n w.models ≡ none
  pub others : (j : Text) → n ≢ j → view w j ≡ view w0 j
  pub after : w.next ≡ w0.next

module _ {ℓ} {Module : Type ℓ} where
  -- What `unregister` leaves.
  abbrev pub removed : Models Module → Text → ℕ → Models Module
  removed w n p = record w { models = without n w.models; object = put w.object p none }

  pub unregister_lem :
      (w : Models Module) (n : Text) (p : ℕ) (m : ModelMetadata Module)
      → lookup n w.models ≡ some p
      → w.object p ≡ some m
      → unregister w n ≡ (some (p, m), removed w n p)
  unfolding unregister
  unregister_lem w n p m hp hm = ground arith

  pub removed-Lacks :
      (k : ℕ) (w : Models Module) (n : Text) (p : ℕ)
      → IsBelow k w
      → lookup n w.models ≡ some p
      → Lacks k w (removed w n p) n
  removed-Lacks k w n p v hp = record {
    below = record { holds = holds };
    gone = lookup-without_self n w.models;
    others = λ j ne.
        ap (look (put w.object p none)) (lookup-without_ne n j w.models ne)
        ∙ look-put_ne w.object p none (lookup j w.models) (λ q hq. apart k w n j p q v hp hq ne);
    after = refl;
  }
    where
      holds :
          (j : Text) (q : ℕ)
          → lookup j (without n w.models) ≡ some q
          → (m : ModelMetadata Module) × (put w.object p none q ≡ some m)
            × (m.config.name ≡ j)
            × (q < k)
      holds j q hq = elim (Text-cases n j) [
        | inl e ↦ absurd (cc (hq, lookup-without_self j w.models, e))
        | inr ne ↦
            let hq' : lookup j w.models ≡ some q = sym (lookup-without_ne n j w.models ne) ∙ hq in
            let (m, is_m, name, lt) = v.holds j q hq' in
            (m, put_ne w.object p q none (apart k w n j p q v hp hq' ne) ∙ is_m, name, lt)
      ]

  -- A model under a name that the registry does not know.
  abbrev pub added : Models Module → ℕ → ModelMetadata Module → Models Module
  added w p meta = record w {
    models = (meta.config.name, p) ∷ w.models;
    object = put w.object p (some meta);
  }

  pub register_model_lem :
      (w : Models Module) (p : ℕ) (meta : ModelMetadata Module)
      → lookup meta.config.name w.models ≡ none
      → register_model w (some (p, meta)) ≡ (true, added w p meta)
  unfolding register_model
  register_model_lem w p meta h = ground arith

  pub added-Holds :
      (k p : ℕ) (w0 w : Models Module) (meta : ModelMetadata Module)
      → Lacks k w0 w meta.config.name
      → k ≤ p
      → Holds (p + 1) w0 (added w p meta) meta.config.name p meta
  added-Holds k p w0 w meta l le = record {
    below = record { holds = holds };
    named = lookup-cons_self meta.config.name p w.models;
    held = put_self w.object p (some meta);
    others = others;
    after = l.after;
  }
    where
      below : (j : Text) (q : ℕ) → lookup j w.models ≡ some q → p ≢ q
      below j q hq = omega (arith, (l.below.holds j q hq).3)

      holds :
          (j : Text) (q : ℕ)
          → lookup j ((meta.config.name, p) ∷ w.models) ≡ some q
          → (m : ModelMetadata Module) × (put w.object p (some meta) q ≡ some m)
            × (m.config.name ≡ j)
            × (q < p + 1)
      holds j q hq = elim (Text-cases meta.config.name j) [
        | inl e ↦
            let same : p ≡ q = cc (hq, lookup-cons_self meta.config.name p w.models, e) in
            (meta, put_at w.object p q (some meta) same, e, omega arith)
        | inr ne ↦
            let hq' : lookup j w.models ≡ some q =
              sym (lookup-cons_ne meta.config.name j p w.models ne) ∙ hq in
            let (m, is_m, name, lt) = l.below.holds j q hq' in
            (m, put_ne w.object p q (some meta) (below j q hq') ∙ is_m, name, omega arith)
      ]

      others : (j : Text) → meta.config.name ≢ j → view (added w p meta) j ≡ view w0 j
      others j ne =
          ap (look (put w.object p (some meta))) (lookup-cons_ne meta.config.name j p w.models ne)
          ∙ (look-put_ne w.object p (some meta) (lookup j w.models) (below j) ∙ l.others j ne)

  -- The object behind a name's pointer, changed.
  abbrev pub changed : Models Module → ℕ → ModelMetadata Module → Models Module
  changed w p m = record w { object = put w.object p (some m) }

  pub store_state_lem :
      (w : Models Module) (p : ℕ) (m : ModelMetadata Module) (state : ModelState)
      → w.object p ≡ some m
      → store_state w p state ≡ changed w p (record m { state = state })
  unfolding store_state
  store_state_lem w p m state h = ground arith

  pub store_backend_lem :
      (w : Models Module) (p : ℕ) (m : ModelMetadata Module) (b : TorchBackend Module)
      → w.object p ≡ some m
      → store_backend w p b ≡ changed w p (record m { backend = some b })
  unfolding store_backend
  store_backend_lem w p m b h = ground arith

  pub changed-Holds :
      (k p : ℕ) (w0 w : Models Module) (n : Text) (m m' : ModelMetadata Module)
      → Holds k w0 w n p m
      → m'.config.name ≡ n
      → Holds k w0 (changed w p m') n p m'
  changed-Holds k p w0 w n m m' h e = record {
    below = record { holds = holds };
    named = h.named;
    held = put_self w.object p (some m');
    others = λ j ne.
        look-put_ne w.object p (some m') (lookup j w.models)
          (λ q hq. apart k w n j p q h.below h.named hq ne)
        ∙ h.others j ne;
    after = h.after;
  }
    where
      holds :
          (j : Text) (q : ℕ)
          → lookup j w.models ≡ some q
          → (o : ModelMetadata Module) × (put w.object p (some m') q ≡ some o)
            × (o.config.name ≡ j)
            × (q < k)
      holds j q hq = elim (Text-cases n j) [
        | inl same ↦
            let here : p ≡ q = cc (hq, h.named, same) in
            let (_, _, _, lt) = h.below.holds j q hq in
            (m', put_at w.object p q (some m') here, e ∙ same, lt)
        | inr ne ↦
            let (o, is_o, name, lt) = h.below.holds j q hq in
            (
              o,
              put_ne w.object p q (some m') (apart k w n j p q h.below h.named hq ne) ∙ is_o,
              name,
              lt,
            )
      ]
