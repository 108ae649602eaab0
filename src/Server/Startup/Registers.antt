-- ===== src/Server/Startup/Registers.antt =====
-- What the runtime finds once main has registered the models.
use mathlib.Core.Path.{subst}
use jellybean.Base.{
  ℕ, ◌≡◌, refl, sym, ap, ◌∙◌, arith, Bool, true, false, ◌||◌, ◌&&◌, Option, none, some, List, [],
  ◌∷◌, if◌then◌else◌,
}
use jellybean.Base.Text.{Text, text_eq, text_eq_iff}
use jellybean.Base.Dict.{lookup, lookup-cons}
use jellybean.Inference.Runtime
use jellybean.Inference.Runtime.{
  Runtime, Route, replies, forwards, make_runtime, emplace, infer_async,
}
use jellybean.Model.Executor.{Executor, make, start}
use jellybean.Model.Registry.{ModelInfo, Models, is_ready_state, lookup_ready}
use jellybean.Server.Startup.{points_to_ready, register_found, register_info, register_ready}
use jellybean.Server.Startup.Lists.{
  is_some, or_absorb, and_true, lists_ready, found-points, same_name,
}

distribute : (x a b l : Bool) → ((x || (a && l)) || (b && l)) ≡ (x || ((a || b) && l))
distribute true a b l = refl
distribute false true b true = refl
distribute false true true false = refl
distribute false true false false = refl
distribute false false b l = refl

module _ {κ} {Float : Type κ} where
  if_some :
      (b : Bool) (e : Executor Float) (o : Option (Executor Float))
      → is_some (if b then some e else o) ≡ (is_some o || b)
  if_some true e none = refl
  if_some true e (some x) = refl
  if_some false e none = refl
  if_some false e (some x) = refl

  emplace-lookup :
      (r : Runtime Float) (name n : Text) (e : Executor Float) (q : Option (Executor Float))
      → lookup name r.executors ≡ q
      → is_some (lookup n (emplace r name e q).1.executors)
        ≡ (is_some (lookup n r.executors) || text_eq name n)
  unfolding emplace
  emplace-lookup r name n e none is_q =
      ap is_some (lookup-cons name n e r.executors)
      ∙ if_some (text_eq name n) e (lookup n r.executors)
  emplace-lookup r name n e (some old) is_q =
      or_absorb (is_some (lookup n r.executors)) (text_eq name n) (λ same.
        ap (λ k. is_some (lookup k r.executors)) (sym ((text_eq_iff name n).0 same))
        ∙ ap is_some is_q)

module _ {ℓ κ} {Module : Type ℓ} {Float : Type κ} (w : Models Module) where
  -- What registering one model does to what the runtime finds.
  register_found-lookup :
      (r : Runtime Float) (name n : Text) (o : Option ℕ)
      → ((p : ℕ) → o ≡ some p → points_to_ready w p ≡ true)
      → is_some (lookup n (register_found w r name o).executors)
        ≡ (is_some (lookup n r.executors) || (text_eq name n && is_some o))
  unfolding register_found Runtime.register_model
  register_found-lookup r name n none f =
      or_absorb (is_some (lookup n r.executors)) (text_eq name n && false)
        (λ e. absurd (ground (arith, e)))
  register_found-lookup r name n (some p) f =
      subst
        (λ b.
          is_some (lookup n (Runtime.register_model r name b).1.executors)
          ≡ (is_some (lookup n r.executors) || (text_eq name n && true)))
        (sym (f p refl))
        (emplace-lookup r name n (start (make r.cfg.worker_threads)) (lookup name r.executors) refl
          ∙ ap (λ b. is_some (lookup n r.executors) || b) (and_true (text_eq name n)))

  register_info-lookup :
      (r : Runtime Float) (info : ModelInfo) (n : Text)
      → is_some (lookup n (register_info w r info).executors) ≡ (
          is_some (lookup n r.executors)
          || ((is_ready_state info.state && text_eq info.name n) && is_some (lookup_ready w n)))
  unfolding register_info
  register_info-lookup r info n = by_state (is_ready_state info.state)
    where
      by_state :
          (b : Bool)
          → is_some (
              lookup n
                (if b
                  then register_found w r info.name (lookup_ready w info.name)
                  else r).executors)
            ≡ (is_some (lookup n r.executors)
                || ((b && text_eq info.name n) && is_some (lookup_ready w n)))
      by_state true =
          register_found-lookup r info.name n (lookup_ready w info.name) (found-points w info.name)
          ∙ ap (λ b. is_some (lookup n r.executors) || b) (same_name w info.name n)
      by_state false =
          or_absorb (is_some (lookup n r.executors)) false (λ e. absurd (ground (arith, e)))

  pub register_ready-lookup :
      (r : Runtime Float) (list : List ModelInfo) (n : Text)
      → is_some (lookup n (register_ready w list r).executors)
        ≡ (is_some (lookup n r.executors) || (lists_ready n list && is_some (lookup_ready w n)))
  unfolding register_ready
  register_ready-lookup r [] n =
      or_absorb (is_some (lookup n r.executors)) false (λ e. absurd (ground (arith, e)))
  register_ready-lookup r (info ∷ list) n =
      register_ready-lookup (register_info w r info) list n
      ∙ ap (λ b. b || (lists_ready n list && is_some (lookup_ready w n)))
          (register_info-lookup r info n)
      ∙ distribute (is_some (lookup n r.executors))
          (is_ready_state info.state && text_eq info.name n) (lists_ready n list)
          (is_some (lookup_ready w n))

  emplace-is_stopped :
      (r : Runtime Float) (name : Text) (e : Executor Float) (q : Option (Executor Float))
      → (emplace r name e q).1.is_stopped ≡ r.is_stopped
  unfolding emplace
  emplace-is_stopped r name e none = refl
  emplace-is_stopped r name e (some old) = refl

  register_model-is_stopped :
      (r : Runtime Float) (name : Text) (b : Bool)
      → (Runtime.register_model r name b).1.is_stopped ≡ r.is_stopped
  unfolding Runtime.register_model
  register_model-is_stopped r name true =
      emplace-is_stopped r name (start (make r.cfg.worker_threads)) (lookup name r.executors)
  register_model-is_stopped r name false = refl

  register_found-is_stopped :
      (r : Runtime Float) (name : Text) (o : Option ℕ)
      → (register_found w r name o).is_stopped ≡ r.is_stopped
  unfolding register_found
  register_found-is_stopped r name none = refl
  register_found-is_stopped r name (some p) = register_model-is_stopped r name (points_to_ready w p)

  register_info-is_stopped :
      (r : Runtime Float) (info : ModelInfo) → (register_info w r info).is_stopped ≡ r.is_stopped
  unfolding register_info
  register_info-is_stopped r info = by_state (is_ready_state info.state)
    where
      by_state :
          (b : Bool)
          → (if b then register_found w r info.name (lookup_ready w info.name) else r).is_stopped
            ≡ r.is_stopped
      by_state true = register_found-is_stopped r info.name (lookup_ready w info.name)
      by_state false = refl

  pub register_ready-is_stopped :
      (r : Runtime Float) (list : List ModelInfo)
      → (register_ready w list r).is_stopped ≡ r.is_stopped
  unfolding register_ready
  register_ready-is_stopped r [] = refl
  register_ready-is_stopped r (info ∷ list) =
      register_ready-is_stopped (register_info w r info) list ∙ register_info-is_stopped r info
