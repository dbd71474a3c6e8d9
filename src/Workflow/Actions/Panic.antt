-- ===== src/Workflow/Actions/Panic.antt =====
-- handleActions stores the status of a deferred decision into the map of statuses, which must not be
-- nil then.
use temporal_auto_scaled_wor.Prelude.{
  ℕ, zero, suc, ℤ, pos, negsuc, if◌then◌else◌, Bool, true, false, leb, not, String, str_eq, Option,
  none, some, List, [], ◌∷◌, Map, lookup, Float64, Result, ok, err, ◌≡◌, refl, sym, subst,
  Bool-cases, Result-cases, inl, inr,
}
use temporal_auto_scaled_wor.Iface.Types.{
  ScalingAlgorithmStatus, ScalingGroupSpec, Groups, SignalTaskAddRequest,
}
use temporal_auto_scaled_wor.Iface.Spec.{
  scaling_group_key_for_task_queue_type, effective_task_types_for_group,
}
use temporal_auto_scaled_wor.Iface.SpecUpdate.{current_groups}
use temporal_auto_scaled_wor.Scaling.Registry.{
  AlgorithmError, TaskAddResponse, ScalingAction, ActionType, invoke_worker, update_worker_set_size,
  deferred_scaling_decision, unknown_action,
}
use temporal_auto_scaled_wor.Activities.{
  Activities, ActivityError, app_error, other_error, StatusMap,
}
use temporal_auto_scaled_wor.Activities.TaskAdd.{
  TaskAddActivityResponse, task_added, unchanged, task_add_answer, handle_task_add_signal,
}
use temporal_auto_scaled_wor.Activities.Deferred.{DeferredResponse}
use temporal_auto_scaled_wor.Workflow.{
  Runner, Env, ValidationStatus, failed, worker_controller_enabled, with_status,
  signal_version_workflow,
}
use temporal_auto_scaled_wor.Workflow.Actions.{
  Call, Workers, Dispatch, after_worker, store, store_present, if_running, after_decision,
  with_call, dispatch_decision, dispatch_resize, dispatch_to, dispatch_found, handle_action,
  each_action, handle_actions, handle_all, asked, with_statuses, no_sync_match,
  handle_no_sync_match_signal,
}

module _ {F : Float64} where
  abbrev HasMap : StatusMap F → Type 0
  HasMap s = (m : Map (ScalingAlgorithmStatus F)) × (s ≡ some m)

  task_added-HasMap :
      (statuses : StatusMap F) (key : String) (ts : List _)
      (r : Result AlgorithmError (Option (TaskAddResponse F)))
      → HasMap (task_added statuses key ts r).updated_scaling_status
  task_added-HasMap statuses key ts (err e) = (_, refl)
  task_added-HasMap statuses key ts (ok none) = (_, refl)
  task_added-HasMap statuses key ts (ok (some x)) = (_, refl)

module _ {F : Float64} {P : Type 0} where
  handle_task_add_signal-HasMap :
      (a : Activities F P) (r : SignalTaskAddRequest) (g : Option (Groups P)) (s : StatusMap F)
      → HasMap (handle_task_add_signal a r g s).updated_scaling_status
  unfolding handle_task_add_signal
  handle_task_add_signal-HasMap a r none s = (_, refl)
  handle_task_add_signal-HasMap a r (some groups) s = go (str_eq key "")
    where
      key : String
      key = scaling_group_key_for_task_queue_type groups r.task_queue_type a.region_id

      go :
          (b : Bool)
          → HasMap
              (if b
                then unchanged s
                else task_added s key
                    (effective_task_types_for_group groups key a.region_id)
                    (task_add_answer a r groups s key)).updated_scaling_status
      go true = (_, refl)
      go false = task_added-HasMap s key _ (task_add_answer a r groups s key)

  -- A successful answer to a task-add is what the activity computes, in some state of its process.
  abbrev pub IsTaskAddActivity : Workers F P → Type 0
  IsTaskAddActivity w =
      (cs : List (Call F P)) (r : SignalTaskAddRequest) (g : Option (Groups P)) (s : StatusMap F)
      (x : TaskAddActivityResponse F)
      → w.task_add cs r g s ≡ ok x
      → (a : Activities F P) × (x ≡ handle_task_add_signal a r g s)

  abbrev IsSafe : Dispatch F P → Type 0
  IsSafe st = (st.panicked ≡ false) × HasMap st.runner.scaling_status

  with_status-HasMap :
      (s : ValidationStatus) (d : Runner F P)
      → HasMap d.scaling_status
      → HasMap (with_status s d).scaling_status
  unfolding signal_version_workflow
  with_status-HasMap s d h = elim (Bool-cases (leb 2 d.version)) [
    | inl new ↦ rw new h
    | inr old ↦ rw old h
  ]

  worker-IsSafe :
      (e : Env F P) (r : Result ActivityError (Unit {0})) (st : Dispatch F P)
      → IsSafe st
      → IsSafe (after_worker e r st)
  worker-IsSafe e (ok u) st h = h
  worker-IsSafe e (err (app_error t m)) st h =
      (h.0, with_status-HasMap (failed e.now m) st.runner h.1)
  worker-IsSafe e (err (other_error m)) st h = h

  store-IsSafe :
      (key : String) (status : ScalingAlgorithmStatus F) (m : StatusMap F) (st : Dispatch F P)
      → HasMap m
      → st.panicked ≡ false
      → IsSafe (store key status m st)
  store-IsSafe key status none st h p = cc
  store-IsSafe key status (some m) st h p = (p, (_, refl))

  present-IsSafe :
      (key : String) (status : ScalingAlgorithmStatus F) (st : Dispatch F P)
      → IsSafe st
      → IsSafe (store_present key status st)
  present-IsSafe key none st h = h
  present-IsSafe key (some s) st h = store-IsSafe key (some s) st.runner.scaling_status st h.1 h.0

  abbrev KeepsSafe : (List ScalingAction → Dispatch F P → Dispatch F P) → Type 0
  KeepsSafe n = (xs : List ScalingAction) (st : Dispatch F P) → IsSafe st → IsSafe (n xs st)

  decision-IsSafe :
      (n : List ScalingAction → Dispatch F P → Dispatch F P) (key : String)
      (r : Result ActivityError (DeferredResponse F)) (st : Dispatch F P)
      → KeepsSafe n
      → IsSafe st
      → IsSafe (after_decision n key r st)
  decision-IsSafe n key (err x) st k h = h
  decision-IsSafe n key (ok x) st k h =
      k x.actions _ (present-IsSafe key x.updated_scaling_status st h)

  dispatch_decision-IsSafe :
      (n : List ScalingAction → Dispatch F P → Dispatch F P) (w : Workers F P)
      (r : Option SignalTaskAddRequest) (x : ScalingAction) (c : Option ℤ) (g : ScalingGroupSpec P)
      (st : Dispatch F P)
      → KeepsSafe n
      → IsSafe st
      → IsSafe (dispatch_decision n w r x c g st)
  dispatch_decision-IsSafe n w r x (some c) g st k h = h
  dispatch_decision-IsSafe n w none x none g st k h = h
  dispatch_decision-IsSafe n w (some r) x none g st k h =
      decision-IsSafe n x.scaling_group_key _ (with_call _ st) k h

  dispatch_to-IsSafe :
      (n : List ScalingAction → Dispatch F P → Dispatch F P) (e : Env F P) (w : Workers F P)
      (r : Option SignalTaskAddRequest) (x : ScalingAction) (t : ActionType)
      (g : ScalingGroupSpec P) (st : Dispatch F P)
      → KeepsSafe n
      → IsSafe st
      → IsSafe (dispatch_to n e w r x t g st)
  dispatch_to-IsSafe n e w r x deferred_scaling_decision g st k h =
      dispatch_decision-IsSafe n w r x x.count g st k h
  dispatch_to-IsSafe n e w r x invoke_worker g st k h = worker-IsSafe e _ (with_call _ st) h
  dispatch_to-IsSafe n e w r x update_worker_set_size g st k h = sized x.count
    where
      sized : (c : Option ℤ) → IsSafe (dispatch_resize e w x.scaling_group_key g c st)
      sized none = worker-IsSafe e _ (with_call _ st) h
      sized (some (negsuc n)) = h
      sized (some (pos n)) = worker-IsSafe e _ (with_call _ st) h
  dispatch_to-IsSafe n e w r x (unknown_action s) g st k h = h

  handle_action-IsSafe :
      (n : List ScalingAction → Dispatch F P → Dispatch F P) (e : Env F P) (w : Workers F P)
      (r : Option SignalTaskAddRequest) (x : ScalingAction) (st : Dispatch F P)
      → KeepsSafe n
      → IsSafe st
      → IsSafe (handle_action n e w r x st)
  unfolding handle_action
  handle_action-IsSafe n e w r x st k h =
      running st.panicked _ (named (str_eq x.scaling_group_key ""))
    where
      found : (o : Option (ScalingGroupSpec P)) → IsSafe (dispatch_found n e w r x o st)
      found none = h
      found (some g) = dispatch_to-IsSafe n e w r x x.action g st k h

      named :
          (b : Bool)
          → IsSafe (
              if b
              then st
              else dispatch_found n e w r x
                  (lookup x.scaling_group_key (current_groups st.runner.spec))
                  st)
      named true = h
      named false = found (lookup x.scaling_group_key (current_groups st.runner.spec))

      running : (b : Bool) (st' : Dispatch F P) → IsSafe st' → IsSafe (if_running b st st')
      running true st' p = h
      running false st' p = p

  each_action-IsSafe :
      (n : List ScalingAction → Dispatch F P → Dispatch F P) (e : Env F P) (w : Workers F P)
      (r : Option SignalTaskAddRequest) (xs : List ScalingAction) (st : Dispatch F P)
      → KeepsSafe n
      → IsSafe st
      → IsSafe (each_action n e w r xs st)
  unfolding each_action
  each_action-IsSafe n e w r [] st k h = h
  each_action-IsSafe n e w r (x ∷ xs) st k h =
      each_action-IsSafe n e w r xs _ k (handle_action-IsSafe n e w r x st k h)

  handle_actions-IsSafe :
      (depth : ℕ) (e : Env F P) (w : Workers F P) (r : Option SignalTaskAddRequest)
      → KeepsSafe (handle_actions depth e w r)
  unfolding handle_actions
  handle_actions-IsSafe zero e w r xs st h = h
  handle_actions-IsSafe (suc depth) e w r xs st h =
      each_action-IsSafe (handle_actions depth e w none) e w r xs st
        (handle_actions-IsSafe depth e w none) h

  statuses-IsSafe :
      (s : StatusMap F) (st : Dispatch F P)
      → HasMap s
      → st.panicked ≡ false
      → IsSafe (with_statuses s st)
  statuses-IsSafe none st h p = cc
  statuses-IsSafe (some m) st h p = (p, (_, refl))

  pub signal-panicked :
      (e : Env F P) (w : Workers F P) (r : Option SignalTaskAddRequest) (st : Dispatch F P)
      → IsTaskAddActivity w
      → st.panicked ≡ false
      → (handle_no_sync_match_signal e w r st).panicked ≡ false
  unfolding handle_no_sync_match_signal
  signal-panicked e w r st h p =
      running st.panicked _
        (running (not (worker_controller_enabled e st.runner)) (no_sync_match e w r st) (go r))
    where
      running :
          (b : Bool) (st' : Dispatch F P)
          → st'.panicked ≡ false
          → (if_running b st st').panicked ≡ false
      running true st' q = p
      running false st' q = q

      go : (q : Option SignalTaskAddRequest) → (no_sync_match e w q st).panicked ≡ false
      go none = p
      go (some q) =
          elim (Result-cases (w.task_add st.calls q st.runner.spec st.runner.scaling_status)) [
            | inl (x, answer) ↦
                let (a, computed) = h st.calls q st.runner.spec st.runner.scaling_status x answer in
                rw answer
                  (handle_actions-IsSafe 2 e w (some q) x.actions _ (
                    statuses-IsSafe x.updated_scaling_status (with_call (asked q) st)
                      (subst (λ y. HasMap y.updated_scaling_status) (sym computed)
                        (handle_task_add_signal-HasMap a q st.runner.spec st.runner.scaling_status))
                      p)).0
            | inr (x, answer) ↦ rw answer p
          ]

  -- No run of task-add signals stores into a nil map, whatever was stored before and whatever the
  -- other activities answer, if the task-add activity answers what its code computes.
  pub handle_all-panicked :
      (e : Env F P) (w : Workers F P) (rs : List (Option SignalTaskAddRequest)) (st : Dispatch F P)
      → IsTaskAddActivity w
      → st.panicked ≡ false
      → (handle_all e w rs st).panicked ≡ false
  unfolding handle_all
  handle_all-panicked e w [] st h p = p
  handle_all-panicked e w (r ∷ rs) st h p =
      handle_all-panicked e w rs _ h (signal-panicked e w r st h p)
