-- ===== src/Server/Startup/Lists.antt =====
-- Which models the registry lists as ready, and which it finds.
use mathlib.Core.Path.{subst}
use jellybean.Base.{
  ℕ, ◌≡◌, refl, sym, ap, ◌∙◌, arith, Bool, true, false, ◌||◌, ◌&&◌, Bool-cases, inl, inr, Option,
  none, some, List, [], ◌∷◌, if◌then◌else◌,
}
use jellybean.Base.Text.{Text, text_eq, text_eq_iff, Text-cases}
use jellybean.Base.Dict.{Dict, lookup}
use jellybean.Inference.Runtime.{}
use jellybean.Model.Registry.{
  ModelMetadata, ModelInfo, Models, is_ready, is_ready_state, infos, find_model, lookup_ready,
  list_models,
}
use jellybean.Server.Startup.{points_to_ready}

abbrev pub is_some {ℓ} : {A : Type ℓ} → Option A → Bool
is_some none = false
is_some (some x) = true

pub or_absorb : (a b : Bool) → (b ≡ true → a ≡ true) → a ≡ (a || b)
or_absorb true b f = refl
or_absorb false true f = f refl
or_absorb false false f = refl

or_true : (a : Bool) {b : Bool} → b ≡ true → (a || b) ≡ true
or_true true h = refl
or_true false h = h

pub and_true : (b : Bool) → b ≡ (b && true)
and_true true = refl
and_true false = refl

and_false : (b : Bool) → (b && false) ≡ false
and_false true = refl
and_false false = refl

-- Does the list have a model of this name that is ready?
abbrev pub lists_ready : Text → List ModelInfo → Bool
lists_ready n [] = false
lists_ready n (info ∷ infos) =
    (is_ready_state info.state && text_eq info.name n) || lists_ready n infos

module _ {ℓ} {Module : Type ℓ} (w : Models Module) where
  -- A pointer to metadata that is ready.
  abbrev Ready : ℕ → Type ℓ
  Ready p = (m : ModelMetadata Module) × (w.object p ≡ some m) × (is_ready m ≡ true)

  object-Ready :
      (p q : ℕ) (o : Option (ModelMetadata Module))
      → w.object p ≡ o
      → (elim o [ none ↦ none | some m ↦ if is_ready m then some p else none ]) ≡ some q
      → (p ≡ q) × Ready p
  object-Ready p q none e h = absurd (ground (arith, h))
  object-Ready p q (some m) e h = elim (Bool-cases (is_ready m)) [
    | inl ready_now ↦ (ground (arith, h, ready_now), (m, e, ready_now))
    | inr other ↦ absurd (ground (arith, h, other))
  ]

  pointer-Ready :
      (q : ℕ) (o : Option ℕ)
      → (elim o [
        | none ↦ none
        | some p ↦ elim (w.object p) [ none ↦ none | some m ↦ if is_ready m then some p else none ]
      ])
        ≡ some q
      → (o ≡ some q) × Ready q
  pointer-Ready q none h = absurd (ground (arith, h))
  pointer-Ready q (some p) h =
      let (same, is_Ready) = object-Ready p q (w.object p) refl h in
      (ap some same, subst Ready same is_Ready)

  lookup_ready-Ready :
      (n : Text) (p : ℕ) → lookup_ready w n ≡ some p → (lookup n w.models ≡ some p) × Ready p
  unfolding lookup_ready find_model
  lookup_ready-Ready n p h = pointer-Ready p (lookup n w.models) h

  pub found-points : (n : Text) (p : ℕ) → lookup_ready w n ≡ some p → points_to_ready w p ≡ true
  found-points n p h =
      let (found, (m, is_m, ready_now)) = lookup_ready-Ready n p h in
      ap (λ (o : Option (ModelMetadata Module)). elim o [ none ↦ false | some k ↦ is_ready k ]) is_m
      ∙ ready_now

  -- The list that `list` makes, at one entry of the map.
  abbrev entry : Text → Option (ModelMetadata Module) → List ModelInfo → List ModelInfo
  entry id o rest = elim o [
    | none ↦ rest
    | some m ↦ record { name = id; state = m.state; version = m.config.version } ∷ rest
  ]

  entry-keeps :
      (n id : Text) (o : Option (ModelMetadata Module)) (rest : List ModelInfo)
      → lists_ready n rest ≡ true
      → lists_ready n (entry id o rest) ≡ true
  entry-keeps n id none rest h = h
  entry-keeps n id (some m) rest h = or_true (is_ready_state m.state && text_eq id n) h

  entry-lists :
      (n id : Text) (m : ModelMetadata Module) (rest : List ModelInfo)
      → is_ready m ≡ true
      → text_eq id n ≡ true
      → lists_ready n (entry id (some m) rest) ≡ true
  entry-lists n id m rest e e' = rw (e, e') refl

  infos-lists :
      (n : Text) (p : ℕ) (d : Dict ℕ)
      → lookup n d ≡ some p
      → Ready p
      → lists_ready n (infos w.object d) ≡ true
  unfolding lookup
  infos-lists n p [] h is_Ready = absurd (ground (arith, h))
  infos-lists n p ((id, q) ∷ rest) h (m, is_m, ready_now) = elim (Bool-cases (text_eq id n)) [
    | inl same ↦
        let at : q ≡ p = ground (arith, h, same) in
        subst (λ o. lists_ready n (entry id o (infos w.object rest)) ≡ true)
          (sym (ap w.object at ∙ is_m)) (entry-lists n id m (infos w.object rest) ready_now same)
    | inr other ↦
        entry-keeps n id (w.object q) (infos w.object rest)
          (infos-lists n p rest (ground (arith, h, other)) (m, is_m, ready_now))
  ]

  pub lookup_ready-lists :
      (n : Text) (o : Option ℕ)
      → lookup_ready w n ≡ o
      → (lists_ready n (list_models w) && is_some o) ≡ is_some o
  unfolding list_models
  lookup_ready-lists n none h = and_false (lists_ready n (list_models w))
  lookup_ready-lists n (some p) h =
      let (found, is_Ready) = lookup_ready-Ready n p h in
      rw (infos-lists n p w.models found is_Ready) refl

  pub same_name :
      (name n : Text)
      → (text_eq name n && is_some (lookup_ready w name))
        ≡ (text_eq name n && is_some (lookup_ready w n))
  same_name name n = elim (Text-cases name n) [
    | inl same ↦ ap (λ k. text_eq name n && is_some (lookup_ready w k)) same
    | inr other ↦
        rw (let e : text_eq name n ≡ false = ground (arith, text_eq_iff name n, other) in e) refl
  ]
