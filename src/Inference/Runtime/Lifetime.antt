-- ===== src/Inference/Runtime/Lifetime.antt =====
-- Which executors of a runtime run.
use jellybean.Base.{
  ℕ, ◌≡◌, ◌⊎◌, inl, inr, refl, sym, ap, ◌∙◌, arith, Bool, true, false, Bool-cases, Option, none,
  some, Option-cases, List, [], ◌∷◌, ◌++◌,
}
use jellybean.Base.Text.{Text, text_eq}
use jellybean.Base.Dict.{Dict, lookup, without}
use jellybean.Inference.Types.{InferenceRequest}
use jellybean.Inference.Settings.{RuntimeConfig}
use jellybean.Model.Executor.Places.{both}
use jellybean.Model.Executor.{Executor, make, start, stop}
use jellybean.Inference.Runtime.{
  Runtime, Route, replies, forwards, make_runtime, register_model, unregister_model, infer_async,
  stop_all, shutdown, emplace, erase_found,
}

-- Calls of the runtime, in any order.
pub data Call : Type 0 where
  register : Text → Bool → Call
  unregister : Text → Call
  shut : Call

module _ {ℓ} {Float : Type ℓ} where
  abbrev pub AllRun : Dict (Executor Float) → Type 0
  AllRun [] = Unit
  AllRun ((id, e) ∷ rest) = (e.stopped ≡ false) × AllRun rest

  abbrev pub AllStopped : List (Executor Float) → Type 0
  AllStopped [] = Unit
  AllStopped (e ∷ rest) = (e.stopped ≡ true) × AllStopped rest

  -- The executors that can be reached run, and those that were let go of do not.
  pub record IsTidy (r : Runtime Float) : Type 0 where
    pub running : AllRun r.executors
    pub done : AllStopped r.retired

  stop-stopped : (e : Executor Float) → (stop e).stopped ≡ true
  unfolding stop
  stop-stopped e = ground arith

  started-runs : (n : ℕ) (e : Executor Float) → e ≡ start (make n) → e.stopped ≡ false
  unfolding start make
  started-runs n e h = ap (λ t. t.stopped) h

  without-AllRun : (k : Text) (d : Dict (Executor Float)) → AllRun d → AllRun (without k d)
  unfolding without
  without-AllRun k [] h = tt
  without-AllRun k ((j, e) ∷ d) h =
      both AllRun (text_eq j k) {x = without k d} {y = (j, e) ∷ without k d}
        (without-AllRun k d h.1) (h.0, without-AllRun k d h.1)

  stop_all-AllStopped :
      (d : Dict (Executor Float)) (es : List (Executor Float))
      → AllStopped es
      → AllStopped (stop_all d ++ es)
  unfolding stop_all
  stop_all-AllStopped [] es h = h
  stop_all-AllStopped ((id, e) ∷ d) es h = (stop-stopped e, stop_all-AllStopped d es h)

  emplace-IsTidy :
      (r : Runtime Float) (id : Text) (n : ℕ) (o : Option (Executor Float))
      → IsTidy r
      → IsTidy (emplace r id (start (make n)) o).1
  unfolding emplace
  emplace-IsTidy r id n none t = record {
    running = (started-runs n (start (make n)) refl, t.running);
    done = t.done;
  }
  emplace-IsTidy r id n (some old) t = record {
    running = t.running;
    done = (stop-stopped (start (make n)), t.done);
  }

  register_model-IsTidy :
      (r : Runtime Float) (id : Text) (is_ready : Bool)
      → IsTidy r
      → IsTidy (register_model r id is_ready).1
  unfolding register_model
  register_model-IsTidy r id false t = t
  register_model-IsTidy r id true t =
      emplace-IsTidy r id r.cfg.worker_threads (lookup id r.executors) t

  erase_found-IsTidy :
      (r : Runtime Float) (id : Text) (o : Option (Executor Float))
      → IsTidy r
      → IsTidy (erase_found r id o).1
  unfolding erase_found
  erase_found-IsTidy r id none t = t
  erase_found-IsTidy r id (some e) t = record {
    running = without-AllRun id r.executors t.running;
    done = (stop-stopped e, t.done);
  }

  shutdown-IsTidy : (r : Runtime Float) → IsTidy r → IsTidy (shutdown r)
  unfolding shutdown
  shutdown-IsTidy r t =
      both IsTidy r.is_stopped {x = r}
        {y = record r {
          is_stopped = true;
          executors = [];
          retired = stop_all r.executors ++ r.retired;
        }}
        t (record { running = tt; done = stop_all-AllStopped r.executors r.retired t.done })

  abbrev pub call : Runtime Float → Call → Runtime Float
  unfolding register_model unregister_model shutdown
  call r (register id is_ready) = (register_model r id is_ready).1
  call r (unregister id) = (unregister_model r id).1
  call r shut = shutdown r

  call-IsTidy : (r : Runtime Float) (c : Call) → IsTidy r → IsTidy (call r c)
  unfolding call
  call-IsTidy r (register id is_ready) t = register_model-IsTidy r id is_ready t
  call-IsTidy r (unregister id) t = erase_found-IsTidy r id (lookup id r.executors) t
  call-IsTidy r shut t = shutdown-IsTidy r t

  abbrev pub calls : Runtime Float → List Call → Runtime Float
  calls r [] = r
  calls r (c ∷ cs) = calls (call r c) cs

  calls-IsTidy : (r : Runtime Float) (cs : List Call) → IsTidy r → IsTidy (calls r cs)
  calls-IsTidy r [] t = t
  calls-IsTidy r (c ∷ cs) t = calls-IsTidy (call r c) cs (call-IsTidy r c t)

-- Whether `shutdown` is among the calls.
abbrev pub shut_in : List Call → Bool
shut_in [] = false
shut_in (register id is_ready ∷ cs) = shut_in cs
shut_in (unregister id ∷ cs) = shut_in cs
shut_in (shut ∷ cs) = true

module _ {ℓ} {Float : Type ℓ} where
  emplace-is_stopped :
      (r : Runtime Float) (id : Text) (e : Executor Float) (o : Option (Executor Float))
      → (emplace r id e o).1.is_stopped ≡ r.is_stopped
  unfolding emplace
  emplace-is_stopped r id e none = refl
  emplace-is_stopped r id e (some old) = refl

  register_model-is_stopped :
      (r : Runtime Float) (id : Text) (is_ready : Bool)
      → (register_model r id is_ready).1.is_stopped ≡ r.is_stopped
  unfolding register_model
  register_model-is_stopped r id false = refl
  register_model-is_stopped r id true =
      emplace-is_stopped r id (start (make r.cfg.worker_threads)) (lookup id r.executors)

  erase_found-is_stopped :
      (r : Runtime Float) (id : Text) (o : Option (Executor Float))
      → (erase_found r id o).1.is_stopped ≡ r.is_stopped
  unfolding erase_found
  erase_found-is_stopped r id none = refl
  erase_found-is_stopped r id (some e) = refl

  shutdown-is_stopped : (r : Runtime Float) → (shutdown r).is_stopped ≡ true
  unfolding shutdown
  shutdown-is_stopped r = ground arith

  -- A runtime stays stopped.
  calls-stopped :
      (r : Runtime Float) (cs : List Call) → r.is_stopped ≡ true → (calls r cs).is_stopped ≡ true
  unfolding unregister_model call register_model
  calls-stopped r [] h = h
  calls-stopped r (register id is_ready ∷ cs) h =
      calls-stopped (call r (register id is_ready)) cs (register_model-is_stopped r id is_ready ∙ h)
  calls-stopped r (unregister id ∷ cs) h =
      calls-stopped (call r (unregister id)) cs
        (erase_found-is_stopped r id (lookup id r.executors) ∙ h)
  calls-stopped r (shut ∷ cs) h = calls-stopped (shutdown r) cs (shutdown-is_stopped r)

  -- It is stopped by a shutdown, and by nothing else.
  calls-is_stopped :
      (r : Runtime Float) (cs : List Call)
      → r.is_stopped ≡ false
      → (calls r cs).is_stopped ≡ shut_in cs
  unfolding unregister_model call register_model
  calls-is_stopped r [] h = h
  calls-is_stopped r (register id is_ready ∷ cs) h =
      calls-is_stopped (call r (register id is_ready)) cs
        (register_model-is_stopped r id is_ready ∙ h)
  calls-is_stopped r (unregister id ∷ cs) h =
      calls-is_stopped (call r (unregister id)) cs
        (erase_found-is_stopped r id (lookup id r.executors) ∙ h)
  calls-is_stopped r (shut ∷ cs) h = calls-stopped (shutdown r) cs (shutdown-is_stopped r)

-- Whatever calls a new runtime has had, every executor that it can find runs, and every executor that
-- it has let go of is stopped.
make_runtime-IsTidy {ℓ} :
    {Float : Type ℓ} (cfg : RuntimeConfig) (cs : List Call)
    → IsTidy (calls (make_runtime {Float = Float} cfg) cs)
make_runtime-IsTidy cfg cs = calls-IsTidy (make_runtime cfg) cs (record { running = tt; done = tt })

some-inj {ℓ} : {A : Type ℓ} {a b : A} → some a ≡ some b → a ≡ b
some-inj h = cc

module _ {Float : Type 0} where
  lookup-AllRun :
      (k : Text) (d : Dict (Executor Float)) (e : Executor Float)
      → AllRun d
      → lookup k d ≡ some e
      → e.stopped ≡ false
  unfolding lookup
  lookup-AllRun k [] e h is_e = cc
  lookup-AllRun k ((j, e') ∷ d) e h is_e =
      (both (λ o. o ≡ some e → e.stopped ≡ false) (text_eq j k)
          (λ is_some. ap (λ t. t.stopped) (sym (some-inj is_some)) ∙ h.0) (lookup-AllRun k d e h.1))
        is_e

  -- An error tells of a shutdown among the calls or of a name that is not registered; a request that
  -- is handed on goes to a running executor, and there was no shutdown.
  abbrev pub RunsFor : List Call → Runtime Float → InferenceRequest Float → Route → Type 0
  RunsFor cs r req (replies resp) =
      (resp.is_ok ≡ false) × ((shut_in cs ≡ true) ⊎ (lookup req.model_id r.executors ≡ none))
  RunsFor cs r req (forwards id) =
      (e : Executor Float) × (lookup id r.executors ≡ some e)
      × (id ≡ req.model_id)
      × (shut_in cs ≡ false)
      × (e.stopped ≡ false)

  module _ (cs : List Call) (r : Runtime Float) (req : InferenceRequest Float) where
    infer_async-stopped :
        r.is_stopped ≡ true → shut_in cs ≡ true → RunsFor cs r req (infer_async r req)
    unfolding infer_async
    infer_async-stopped h was_shut = rw h (refl, inl was_shut)

    infer_async-missing :
        r.is_stopped ≡ false
        → lookup req.model_id r.executors ≡ none
        → RunsFor cs r req (infer_async r req)
    unfolding infer_async
    infer_async-missing h h' = rw (h, h') (refl, inr h')

    infer_async-found :
        (e : Executor Float)
        → IsTidy r
        → r.is_stopped ≡ false
        → shut_in cs ≡ false
        → lookup req.model_id r.executors ≡ some e
        → RunsFor cs r req (infer_async r req)
    unfolding infer_async
    infer_async-found e t h unshut h' =
        rw (h, h') (e, h', refl, unshut, lookup-AllRun req.model_id r.executors e t.running h')

  -- Whatever calls a new runtime has had, `infer_async` answers with an error, which it does only if
  -- the runtime has been shut down or knows no model of that name, or it hands the request to a
  -- running executor that is registered under the model's name, which it does only if none of the
  -- calls was a shutdown.
  pub infer_async-RunsFor :
      (cfg : RuntimeConfig) (cs : List Call) (req : InferenceRequest Float)
      → RunsFor cs (calls (make_runtime cfg) cs) req (infer_async (calls (make_runtime cfg) cs) req)
  infer_async-RunsFor cfg cs req =
      let r = calls (make_runtime cfg) cs in
      let shut_iff = calls-is_stopped (make_runtime cfg) cs refl in
      elim (Bool-cases r.is_stopped) [
        | inl h ↦ infer_async-stopped cs r req h (sym shut_iff ∙ h)
        | inr h ↦ elim (Option-cases (lookup req.model_id r.executors)) [
          | inl h' ↦ infer_async-missing cs r req h h'
          | inr (e, h') ↦
              infer_async-found cs r req e (make_runtime-IsTidy cfg cs) h (sym shut_iff ∙ h) h'
        ]
      ]
