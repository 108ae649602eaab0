-- ===== src/Model/Repository/Load.antt =====
-- `load_model`: what the registry knows afterwards.
use mathlib.Core.Path.{subst}
use jellybean.Base.{
  ℕ, ◌+◌, ◌≡◌, ◌≢◌, ◌⊎◌, inl, inr, refl, sym, ap, ◌∙◌, arith, Bool, true, false, Bool-cases, Option,
  none, some, Option-cases, if◌then◌else◌,
}
use jellybean.Base.Text.{Text, is_empty}
use jellybean.Base.Outcome.{Outcome, Exception, ok, throws}
use jellybean.Base.Dict.{lookup}
use jellybean.Model.Config.{ModelConfig, ModelDir, from_dir}
use jellybean.Inference.Torch.{TorchBackend, TorchLoader}
use jellybean.Model.Registry.{
  ModelMetadata, ModelState, loading, ready, failed, is_ready, Models, unregister, store_state,
  store_backend,
}
use jellybean.Model.Registry.Laws.{
  look, view, IsBelow, IsValid, Holds, Lacks, unregister_lem, removed-Lacks, register_model_lem,
  added-Holds, added, changed-Holds, store_state_lem, store_backend_lem,
}
use jellybean.Model.Repository.{
  try_load, finish_load, unregister_old, load_config, load_outcome, load_model,
}

module _ {ℓ} {Module : Type ℓ} where
  -- The metadata with the answer of the backend.
  abbrev pub answered : ModelConfig → Option (Bool × TorchBackend Module) → ModelMetadata Module
  answered cfg none = record { config = cfg; state = failed; backend = none }
  answered cfg (some (false, b)) = record { config = cfg; state = failed; backend = none }
  answered cfg (some (true, b)) = record { config = cfg; state = ready; backend = some b }

  -- The registry afterwards: the result tells whether the model is ready, its name leads to its
  -- metadata, and all other names are as before.
  pub record Registers (w : Models Module) (cfg : ModelConfig) (m : ModelMetadata Module)
      (r : Bool × Models Module) : Type ℓ where
    pub tells : r.0 ≡ is_ready m
    pub valid : IsValid r.1
    pub known : view r.1 cfg.name ≡ some m
    pub others : (j : Text) → cfg.name ≢ j → view r.1 j ≡ view w j

  unregister_old-none :
      (w : Models Module) (n : Text) → lookup n w.models ≡ none → unregister_old w n ≡ w
  unfolding unregister_old
  unregister_old-none w n h = ground arith

  unregister_old-some :
      (w : Models Module) (n : Text) (p : ℕ)
      → lookup n w.models ≡ some p
      → unregister_old w n ≡ (unregister w n).1
  unfolding unregister_old
  unregister_old-some w n p h = ground arith

  unregister_old-Lacks :
      (k : ℕ) (w : Models Module) (n : Text) → IsBelow k w → Lacks k w (unregister_old w n) n
  unregister_old-Lacks k w n v = elim (Option-cases (lookup n w.models)) [
    | inl h ↦
        subst (λ t. Lacks k w t n) (sym (unregister_old-none w n h))
          (record { below = v; gone = h; others = λ j ne. refl; after = refl })
    | inr (p, h) ↦
        let (m, is_m, _, _) = v.holds n p h in
        subst (λ t. Lacks k w t n)
          (sym (unregister_old-some w n p h ∙ ap (λ r. r.1) (unregister_lem w n p m h is_m)))
          (removed-Lacks k w n p v h)
  ]

  abbrev started : ModelConfig → ModelMetadata Module
  started cfg = record { config = cfg; state = loading; backend = none }

  module _ (k p : ℕ) (w0 w : Models Module) (n : Text) (m : ModelMetadata Module)
      (e : m.config.name ≡ n) where
    store_state-Holds :
        (state : ModelState)
        → Holds k w0 w n p m
        → Holds k w0 (store_state w p state) n p (record m { state = state })
    store_state-Holds state h =
        subst (λ t. Holds k w0 t n p (record m { state = state }))
          (sym (store_state_lem w p m state h.held))
          (changed-Holds k p w0 w n m (record m { state = state }) h e)

    store_backend-Holds :
        (b : TorchBackend Module)
        → Holds k w0 w n p m
        → Holds k w0 (store_backend w p b) n p (record m { backend = some b })
    store_backend-Holds b h =
        subst (λ t. Holds k w0 t n p (record m { backend = some b }))
          (sym (store_backend_lem w p m b h.held))
          (changed-Holds k p w0 w n m (record m { backend = some b }) h e)

  finish_load-Holds :
      (k p : ℕ) (w0 w : Models Module) (cfg : ModelConfig) (o : Option (Bool × TorchBackend Module))
      → Holds k w0 w cfg.name p (started cfg)
      → ((finish_load w p o).0 ≡ is_ready (answered cfg o))
        × Holds k w0 (finish_load w p o).1 cfg.name p (answered cfg o)
  unfolding finish_load
  finish_load-Holds k p w0 w cfg none h =
      (refl, store_state-Holds k p w0 w cfg.name (started cfg) refl failed h)
  finish_load-Holds k p w0 w cfg (some (false, b)) h =
      (refl, store_state-Holds k p w0 w cfg.name (started cfg) refl failed h)
  finish_load-Holds k p w0 w cfg (some (true, b)) h = (
    refl,
    store_state-Holds k p w0 (store_backend w p b) cfg.name
        (record (started cfg) { backend = some b }) refl ready
        (store_backend-Holds k p w0 w cfg.name (started cfg) refl b h),
  )

  abbrev bumped : Models Module → Models Module
  bumped w = record w { next = w.next + 1 }

  -- The registry with the new metadata in it, before the backend is asked.
  abbrev registered : Models Module → ModelConfig → Models Module
  registered w cfg = added (unregister_old (bumped w) cfg.name) w.next (started cfg)

  bumped-Lacks :
      (w : Models Module) (n : Text)
      → IsValid w
      → Lacks w.next (bumped w) (unregister_old (bumped w) n) n
  bumped-Lacks w n v = unregister_old-Lacks w.next (bumped w) n (record { holds = v.holds })

  registered-Holds :
      (w : Models Module) (cfg : ModelConfig)
      → IsValid w
      → Holds (w.next + 1) (bumped w) (registered w cfg) cfg.name w.next (started cfg)
  registered-Holds w cfg v =
      added-Holds w.next w.next (bumped w) (unregister_old (bumped w) cfg.name) (started cfg)
        (bumped-Lacks w cfg.name v) (omega arith)

module _ {ℓ} {Module : Type ℓ} (torch : TorchLoader Module) where
  load_config-nameless :
      (w : Models Module) (cfg : ModelConfig)
      → is_empty cfg.name ≡ true
      → load_config torch w cfg ≡ (false, w)
  unfolding load_config
  load_config-nameless w cfg e = rw e

  load_config-named :
      (w : Models Module) (cfg : ModelConfig)
      → is_empty cfg.name ≡ false
      → IsValid w
      → load_config torch w cfg ≡ finish_load (registered w cfg) w.next (try_load torch cfg)
  unfolding load_config
  load_config-named w cfg e v = rw e (
      ap (λ r. if r.0 then finish_load r.1 w.next (try_load torch cfg) else (false, r.1))
        (register_model_lem (unregister_old (bumped w) cfg.name) w.next (started cfg)
          (bumped-Lacks w cfg.name v).gone))

  -- What a configuration makes of the registry.
  abbrev pub loaded_as : ModelConfig → ModelMetadata Module
  loaded_as cfg = answered cfg (try_load torch cfg)

  finish_load-Registers :
      (w : Models Module) (cfg : ModelConfig) (r : Bool × Models Module)
      → (r.0 ≡ is_ready (loaded_as cfg))
        × Holds (w.next + 1) (bumped w) r.1 cfg.name w.next (loaded_as cfg)
      → Registers w cfg (loaded_as cfg) r
  finish_load-Registers w cfg r (tells, h) = record {
    tells = tells;
    valid = subst (λ k. IsBelow k r.1) (sym h.after) h.below;
    known = ap (look r.1.object) h.named ∙ h.held;
    others = h.others;
  }

  load_config-Registers :
      (w : Models Module) (cfg : ModelConfig)
      → is_empty cfg.name ≡ false
      → IsValid w
      → Registers w cfg (loaded_as cfg) (load_config torch w cfg)
  load_config-Registers w cfg e v =
      subst (Registers w cfg (loaded_as cfg)) (sym (load_config-named w cfg e v)) (
        finish_load-Registers w cfg (finish_load (registered w cfg) w.next (try_load torch cfg)) (
          finish_load-Holds (w.next + 1) w.next (bumped w) (registered w cfg) cfg
            (try_load torch cfg) (registered-Holds w cfg v)))

  -- What `load_model` does with the configuration that it reads, or with the exception.
  abbrev pub Loads : Models Module → Outcome ModelConfig → Outcome Bool × Models Module → Type ℓ
  Loads w (throws e) r = r ≡ (throws e, w)
  Loads w (ok cfg) r =
      ((is_empty cfg.name ≡ true) × (r ≡ (ok false, w)))
      ⊎ ((done : Bool) × (is_empty cfg.name ≡ false)
          × (r.0 ≡ ok done)
          × Registers w cfg (loaded_as cfg) (done, r.1))

  load_outcome-Loads :
      (w : Models Module) (o : Outcome ModelConfig) → IsValid w → Loads w o (load_outcome torch w o)
  unfolding load_outcome
  load_outcome-Loads w (throws e) v = refl
  load_outcome-Loads w (ok cfg) v = elim (Bool-cases (is_empty cfg.name)) [
    | inl none_given ↦
        let left = load_config-nameless w cfg none_given in
        inl (none_given, ap (λ r. (ok r.0, r.1)) left)
    | inr named ↦
        inr ((load_config torch w cfg).0, named, refl, load_config-Registers w cfg named v)
  ]

  -- On a valid registry `load_model` throws where the configuration does and changes nothing then;
  -- without a name it answers false and changes nothing; else the registry stays valid, the name
  -- leads to the new metadata, ready with its backend if the backend was made and has loaded the
  -- file and failed otherwise, the answer tells which, and all other names are as before.
  pub load_model-Loads :
      (w : Models Module) (d : ModelDir) → IsValid w → Loads w (from_dir d) (load_model torch w d)
  unfolding load_model
  load_model-Loads w d v = load_outcome-Loads w (from_dir d) v

  pub load_model-throws :
      (w : Models Module) (d : ModelDir) (e : Exception)
      → from_dir d ≡ throws e
      → load_model torch w d ≡ (throws e, w)
  unfolding load_model load_outcome
  load_model-throws w d e h = ap (load_outcome torch w) h
