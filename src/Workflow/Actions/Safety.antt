-- ===== src/Workflow/Actions/Safety.antt =====
-- handleActions: what it calls, and what it leaves alone.
use temporal_auto_scaled_wor.Prelude.{
  ℕ, zero, suc, ℤ, pos, negsuc, ◌≤ℤ◌, if◌then◌else◌, Bool, true, false, leb, String, str_eq, Option,
  none, some, List, [], ◌∷◌, ◌++◌, All, All-append, lookup, Float64, Result, ok, err, ◌≡◌, refl,
  sym, ap, subst, ◌∙◌, Bool-cases, inl, inr, arith,
}
use temporal_auto_scaled_wor.Iface.Types.{
  ScalingAlgorithmStatus, ScalingGroupSpec, Groups, SignalTaskAddRequest,
}
use temporal_auto_scaled_wor.Iface.SpecUpdate.{current_groups}
use temporal_auto_scaled_wor.Scaling.Registry.{
  ScalingAction, ActionType, invoke_worker, update_worker_set_size, deferred_scaling_decision,
  unknown_action,
}
use temporal_auto_scaled_wor.Activities.{ActivityError, app_error, other_error, StatusMap}
use temporal_auto_scaled_wor.Activities.Deferred.{DeferredResponse}
use temporal_auto_scaled_wor.Workflow.{
  Runner, Env, ValidationStatus, failed, with_status, signal_version_workflow,
}
use temporal_auto_scaled_wor.Workflow.Actions.{
  Call, asked, invoked, resized, decided, Workers, Dispatch, with_call, after_worker, store,
  store_present, if_running, after_decision, dispatch_decision, dispatch_resize, dispatch_to,
  dispatch_found, handle_action, each_action, handle_actions,
}

module _ {F : Float64} {P : Type 0} where
  -- A call for a group that the specification has, with its own provider, and a size that is not
  -- negative.
  abbrev pub IsSound : Groups P → Call F P → Type 0
  IsSound groups (asked r) = Unit {0}
  IsSound groups (invoked key c) =
      (g : ScalingGroupSpec P) × (lookup key groups ≡ some g) × (c ≡ g.compute)
  IsSound groups (resized key c n) =
      (g : ScalingGroupSpec P) × (lookup key groups ≡ some g) × (c ≡ g.compute) × (pos 0 ≤ℤ n)
  IsSound groups (decided q) = lookup q.scaling_group_key groups ≡ some q.scaling_group_spec

  -- What stays, between the states of a runner.
  pub record IsKept (d d' : Runner F P) : Type 0 where
    pub spec : d'.spec ≡ d.spec
    pub pending : d'.pending ≡ d.pending
    pub conflict_token : d'.conflict_token ≡ d.conflict_token
    pub delete_instance : d'.delete_instance ≡ d.delete_instance
    pub state_changed : d'.state_changed ≡ d.state_changed
    pub version : d'.version ≡ d.version

  -- The calls asked of the task-add activity.
  abbrev pub asks : List (Call F P) → List SignalTaskAddRequest
  asks [] = []
  asks (asked r ∷ cs) = r ∷ asks cs
  asks (invoked key c ∷ cs) = asks cs
  asks (resized key c n ∷ cs) = asks cs
  asks (decided q ∷ cs) = asks cs

  -- A part of a dispatch, between two states.
  pub record IsPart (st st' : Dispatch F P) : Type 0 where
    pub kept : IsKept st.runner st'.runner
    pub sound :
        All (IsSound (current_groups st.runner.spec)) st.calls
        → All (IsSound (current_groups st.runner.spec)) st'.calls
    pub asks : asks st'.calls ≡ asks st.calls

  pub IsKept-itself : (d : Runner F P) → IsKept d d
  IsKept-itself d = record {
    spec = refl;
    pending = refl;
    conflict_token = refl;
    delete_instance = refl;
    state_changed = refl;
    version = refl;
  }

  pub IsKept-trans : (a b c : Runner F P) → IsKept a b → IsKept b c → IsKept a c
  IsKept-trans a b c f g = record {
    spec = g.spec ∙ f.spec;
    pending = g.pending ∙ f.pending;
    conflict_token = g.conflict_token ∙ f.conflict_token;
    delete_instance = g.delete_instance ∙ f.delete_instance;
    state_changed = g.state_changed ∙ f.state_changed;
    version = g.version ∙ f.version;
  }

  IsPart-itself : (st : Dispatch F P) → IsPart st st
  IsPart-itself st = record { kept = IsKept-itself st.runner; sound = λ h. h; asks = refl }

  IsPart-trans : (a b c : Dispatch F P) → IsPart a b → IsPart b c → IsPart a c
  IsPart-trans a b c f g = record {
    kept = IsKept-trans a.runner b.runner c.runner f.kept g.kept;
    sound = λ h.
        subst (λ s. All (IsSound (current_groups s)) c.calls) f.kept.spec
          (g.sound
            (subst (λ s. All (IsSound (current_groups s)) b.calls) (sym f.kept.spec) (f.sound h)));
    asks = g.asks ∙ f.asks;
  }

  with_status-IsKept : (s : ValidationStatus) (d : Runner F P) → IsKept d (with_status s d)
  unfolding signal_version_workflow
  with_status-IsKept s d = elim (Bool-cases (leb 2 d.version)) [
    | inl new ↦ rw new (record {
      spec = refl;
      pending = refl;
      conflict_token = refl;
      delete_instance = refl;
      state_changed = refl;
      version = refl;
    })
    | inr old ↦ rw old (record {
      spec = refl;
      pending = refl;
      conflict_token = refl;
      delete_instance = refl;
      state_changed = refl;
      version = refl;
    })
  ]

  -- A call that is no request of the task-add activity.
  abbrev IsWork : Call F P → Type 0
  IsWork c = asks (c ∷ []) ≡ []

  asks-append : (cs : List (Call F P)) (c : Call F P) → IsWork c → asks (cs ++ (c ∷ [])) ≡ asks cs
  asks-append [] c h = h
  asks-append (asked r ∷ cs) c h = ap (λ l. r ∷ l) (asks-append cs c h)
  asks-append (invoked k d ∷ cs) c h = asks-append cs c h
  asks-append (resized k d n ∷ cs) c h = asks-append cs c h
  asks-append (decided q ∷ cs) c h = asks-append cs c h

  with_call-IsPart :
      (c : Call F P) (st : Dispatch F P)
      → IsWork c
      → IsSound (current_groups st.runner.spec) c
      → IsPart st (with_call c st)
  with_call-IsPart c st work s = record {
    kept = IsKept-itself st.runner;
    sound = λ h. All-append (IsSound (current_groups st.runner.spec)) st.calls (c ∷ []) h (s, tt);
    asks = asks-append st.calls c work;
  }

  with_status-IsPart :
      (s : ValidationStatus) (st : Dispatch F P)
      → IsPart st (record st { runner = with_status s st.runner })
  with_status-IsPart s st = record {
    kept = with_status-IsKept s st.runner;
    sound = λ h. h;
    asks = refl;
  }

  after_worker-IsPart :
      (e : Env F P) (r : Result ActivityError (Unit {0})) (st : Dispatch F P)
      → IsPart st (after_worker e r st)
  after_worker-IsPart e (ok u) st = IsPart-itself st
  after_worker-IsPart e (err (app_error t m)) st = with_status-IsPart (failed e.now m) st
  after_worker-IsPart e (err (other_error m)) st = IsPart-itself st

  -- A call of a worker's activity, and what follows.
  worker-IsPart :
      (e : Env F P) (c : Call F P) (r : Result ActivityError (Unit {0})) (st : Dispatch F P)
      → IsWork c
      → IsSound (current_groups st.runner.spec) c
      → IsPart st (after_worker e r (with_call c st))
  worker-IsPart e c r st work s =
      IsPart-trans st (with_call c st) (after_worker e r (with_call c st))
        (with_call-IsPart c st work s) (after_worker-IsPart e r (with_call c st))

  store-IsPart :
      (key : String) (status : ScalingAlgorithmStatus F) (m : StatusMap F) (st : Dispatch F P)
      → IsPart st (store key status m st)
  store-IsPart key status none st = record {
    kept = IsKept-itself st.runner;
    sound = λ h. h;
    asks = refl;
  }
  store-IsPart key status (some m) st = record {
    kept = record {
      spec = refl;
      pending = refl;
      conflict_token = refl;
      delete_instance = refl;
      state_changed = refl;
      version = refl;
    };
    sound = λ h. h;
    asks = refl;
  }

  store_present-IsPart :
      (key : String) (status : ScalingAlgorithmStatus F) (st : Dispatch F P)
      → IsPart st (store_present key status st)
  store_present-IsPart key none st = IsPart-itself st
  store_present-IsPart key (some s) st = store-IsPart key (some s) st.runner.scaling_status st

  abbrev IsPartial : (List ScalingAction → Dispatch F P → Dispatch F P) → Type 0
  IsPartial n = (xs : List ScalingAction) (st : Dispatch F P) → IsPart st (n xs st)

  after_decision-IsPart :
      (n : List ScalingAction → Dispatch F P → Dispatch F P) (key : String)
      (r : Result ActivityError (DeferredResponse F)) (st : Dispatch F P)
      → IsPartial n
      → IsPart st (after_decision n key r st)
  after_decision-IsPart n key (err x) st h = IsPart-itself st
  after_decision-IsPart n key (ok x) st h =
      IsPart-trans st (store_present key x.updated_scaling_status st) _
        (store_present-IsPart key x.updated_scaling_status st)
        (h x.actions (store_present key x.updated_scaling_status st))

  decision-IsPart :
      (n : List ScalingAction → Dispatch F P → Dispatch F P) (w : Workers F P)
      (r : Option SignalTaskAddRequest) (x : ScalingAction) (c : Option ℤ) (g : ScalingGroupSpec P)
      (st : Dispatch F P)
      → IsPartial n
      → lookup x.scaling_group_key (current_groups st.runner.spec) ≡ some g
      → IsPart st (dispatch_decision n w r x c g st)
  decision-IsPart n w r x (some c) g st h found = IsPart-itself st
  decision-IsPart n w none x none g st h found = IsPart-itself st
  decision-IsPart n w (some r) x none g st h found =
      IsPart-trans st (with_call _ st) _ (with_call-IsPart _ st refl found)
        (after_decision-IsPart n x.scaling_group_key _ (with_call _ st) h)

  resize-IsPart :
      (e : Env F P) (w : Workers F P) (key : String) (g : ScalingGroupSpec P) (c : Option ℤ)
      (st : Dispatch F P)
      → lookup key (current_groups st.runner.spec) ≡ some g
      → IsPart st (dispatch_resize e w key g c st)
  resize-IsPart e w key g none st found = worker-IsPart e _ _ st refl (g, found, refl, omega arith)
  resize-IsPart e w key g (some (negsuc n)) st found = IsPart-itself st
  resize-IsPart e w key g (some (pos n)) st found =
      worker-IsPart e _ _ st refl (g, found, refl, omega arith)

  to-IsPart :
      (n : List ScalingAction → Dispatch F P → Dispatch F P) (e : Env F P) (w : Workers F P)
      (r : Option SignalTaskAddRequest) (x : ScalingAction) (t : ActionType)
      (g : ScalingGroupSpec P) (st : Dispatch F P)
      → IsPartial n
      → lookup x.scaling_group_key (current_groups st.runner.spec) ≡ some g
      → IsPart st (dispatch_to n e w r x t g st)
  to-IsPart n e w r x deferred_scaling_decision g st h found =
      decision-IsPart n w r x x.count g st h found
  to-IsPart n e w r x invoke_worker g st h found = worker-IsPart e _ _ st refl (g, found, refl)
  to-IsPart n e w r x update_worker_set_size g st h found =
      resize-IsPart e w x.scaling_group_key g x.count st found
  to-IsPart n e w r x (unknown_action s) g st h found = IsPart-itself st

  handle_action-IsPart :
      (n : List ScalingAction → Dispatch F P → Dispatch F P) (e : Env F P) (w : Workers F P)
      (r : Option SignalTaskAddRequest) (x : ScalingAction) (st : Dispatch F P)
      → IsPartial n
      → IsPart st (handle_action n e w r x st)
  unfolding handle_action
  handle_action-IsPart n e w r x st h = running st.panicked (named (str_eq x.scaling_group_key ""))
    where
      found :
          (o : Option (ScalingGroupSpec P))
          → lookup x.scaling_group_key (current_groups st.runner.spec) ≡ o
          → IsPart st (dispatch_found n e w r x o st)
      found none q = IsPart-itself st
      found (some g) q = to-IsPart n e w r x x.action g st h q

      named :
          (b : Bool)
          → IsPart st (
              if b
              then st
              else dispatch_found n e w r x
                  (lookup x.scaling_group_key (current_groups st.runner.spec))
                  st)
      named true = IsPart-itself st
      named false = found (lookup x.scaling_group_key (current_groups st.runner.spec)) refl

      running : (b : Bool) {st' : Dispatch F P} → IsPart st st' → IsPart st (if_running b st st')
      running true p = IsPart-itself st
      running false p = p

  each_action-IsPart :
      (n : List ScalingAction → Dispatch F P → Dispatch F P) (e : Env F P) (w : Workers F P)
      (r : Option SignalTaskAddRequest) (xs : List ScalingAction) (st : Dispatch F P)
      → IsPartial n
      → IsPart st (each_action n e w r xs st)
  unfolding each_action
  each_action-IsPart n e w r [] st h = IsPart-itself st
  each_action-IsPart n e w r (x ∷ xs) st h =
      IsPart-trans st (handle_action n e w r x st) _ (handle_action-IsPart n e w r x st h)
        (each_action-IsPart n e w r xs (handle_action n e w r x st) h)

  -- Every call of a dispatch is for a group of the current specification with that group's own
  -- provider, and resizes to no negative size; and the dispatch leaves the specification, the queue,
  -- the token and the deletion as they are, whatever the activities answer.
  pub handle_actions-IsPart :
      (depth : ℕ) (e : Env F P) (w : Workers F P) (r : Option SignalTaskAddRequest)
      (xs : List ScalingAction) (st : Dispatch F P)
      → IsPart st (handle_actions depth e w r xs st)
  unfolding handle_actions
  handle_actions-IsPart zero e w r xs st = IsPart-itself st
  handle_actions-IsPart (suc depth) e w r xs st =
      each_action-IsPart (handle_actions depth e w none) e w r xs st
        (λ ys st'. handle_actions-IsPart depth e w none ys st')
