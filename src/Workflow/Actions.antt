-- ===== src/Workflow/Actions.antt =====
-- workflow.go: the dispatch of scaling actions, and the handlers of a task-add signal and of a poll.
pub mod Nesting
pub mod Safety
pub mod Panic
pub mod Batch
pub mod Keeping
use temporal_auto_scaled_wor.Prelude.{
  ℕ, zero, suc, ℤ, pos, negsuc, ltb_ℤ, if◌then◌else◌, Bool, true, false, not, ◌||◌, String, str_eq,
  Option, none, some, List, [], ◌∷◌, ◌++◌, is_empty, Map, lookup, insert, Float64, Result, ok, err,
}
use temporal_auto_scaled_wor.Iface.Types.{
  TaskQueueType, ScalingAlgorithmStatus, ComputeProviderSpec, ScalingGroupSpec, Groups,
  SignalTaskAddRequest,
}
use temporal_auto_scaled_wor.Iface.Spec.{effective_task_types_for_group}
use temporal_auto_scaled_wor.Iface.SpecUpdate.{current_groups}
use temporal_auto_scaled_wor.Scaling.Registry.{
  ScalingAction, ActionType, invoke_worker, update_worker_set_size, deferred_scaling_decision,
  unknown_action,
}
use temporal_auto_scaled_wor.Activities.{
  ActivityError, app_error, other_error, StatusMap, status_at,
}
use temporal_auto_scaled_wor.Activities.PullStats.{PullStatsResponse}
use temporal_auto_scaled_wor.Activities.TaskAdd.{TaskAddActivityResponse}
use temporal_auto_scaled_wor.Activities.Deferred.{DeferredRequest, DeferredResponse}
use temporal_auto_scaled_wor.Workflow.{Runner, Env, failed, worker_controller_enabled, with_status}
use temporal_auto_scaled_wor.Workflow.Queue.{with_pending}

-- maxPollInterval.
abbrev pub max_poll_seconds : ℕ
max_poll_seconds = 300

module _ (F : Float64) (P : Type 0) where
  -- The activities that a dispatch calls, in their order.
  pub data Call : Type 0 where
    asked : SignalTaskAddRequest → Call
    invoked : String → ComputeProviderSpec P → Call
    resized : String → ComputeProviderSpec P → ℤ → Call
    decided : DeferredRequest F P → Call

module _ (F : Float64) (P : Type 0) where
  -- What the activities answer, each to its request and after the calls before it.
  pub record Workers : Type 0 where
    pub invoke : List (Call F P) → ComputeProviderSpec P → Result ActivityError (Unit {0})
    pub resize : List (Call F P) → ComputeProviderSpec P → ℤ → Result ActivityError (Unit {0})
    pub decide : List (Call F P) → DeferredRequest F P → Result ActivityError (DeferredResponse F)
    pub task_add :
        List (Call F P)
        → SignalTaskAddRequest
        → Option (Groups P)
        → StatusMap F
        → Result ActivityError (TaskAddActivityResponse F)
    pub pull : Option (Groups P) → StatusMap F → Result ActivityError (PullStatsResponse F)

  -- The state within a handler. The code panics where it stores into a nil map.
  pub record Dispatch : Type 0 where
    pub runner : Runner F P
    pub calls : List (Call F P)
    pub panicked : Bool

module _ {P : Type 0} where
  abbrev pub types_or : Groups P → String → Option (List TaskQueueType) → List TaskQueueType
  types_or groups key none = effective_task_types_for_group groups key ""
  types_or groups key (some ts) = ts

module _ {F : Float64} {P : Type 0} where
  abbrev pub with_call : Call F P → Dispatch F P → Dispatch F P
  with_call c st = record st { calls = st.calls ++ (c ∷ []) }

  -- After a worker's activity: an application error becomes the validation status.
  abbrev pub after_worker : Env F P → Result ActivityError (Unit {0}) → Dispatch F P → Dispatch F P
  after_worker e (ok u) st = st
  after_worker e (err (app_error t m)) st = record st {
    runner = with_status (failed e.now m) st.runner;
  }
  after_worker e (err (other_error m)) st = st

  -- `d.State.ScalingStatus[key] = status`.
  abbrev pub store : String → ScalingAlgorithmStatus F → StatusMap F → Dispatch F P → Dispatch F P
  store key status none st = record st { panicked = true }
  store key status (some m) st = record st {
    runner = record st.runner { scaling_status = some (insert key status m) };
  }

  abbrev pub store_present : String → ScalingAlgorithmStatus F → Dispatch F P → Dispatch F P
  store_present key none st = st
  store_present key (some s) st = store key (some s) st.runner.scaling_status st

  abbrev pub if_running : Bool → Dispatch F P → Dispatch F P → Dispatch F P
  if_running true st st' = st
  if_running false st st' = st'

  -- `nested` is the dispatch of the actions that a deferred decision answers.
  abbrev pub after_decision :
      (List ScalingAction → Dispatch F P → Dispatch F P)
      → String
      → Result ActivityError (DeferredResponse F)
      → Dispatch F P
      → Dispatch F P
  after_decision nested key (err e) st = st
  after_decision nested key (ok x) st =
      nested x.actions (store_present key x.updated_scaling_status st)

  abbrev pub decision_request :
      Runner F P → ScalingAction → ScalingGroupSpec P → SignalTaskAddRequest → DeferredRequest F P
  decision_request d x g r = record {
    request = r;
    scaling_group_key = x.scaling_group_key;
    scaling_group_spec = g;
    effective_task_types =
        types_or (current_groups d.spec) x.scaling_group_key x.effective_task_types;
    scaling_status = status_at d.scaling_status x.scaling_group_key;
  }

  abbrev pub dispatch_decision :
      (List ScalingAction → Dispatch F P → Dispatch F P)
      → Workers F P
      → Option SignalTaskAddRequest
      → ScalingAction
      → Option ℤ
      → ScalingGroupSpec P
      → Dispatch F P
      → Dispatch F P
  dispatch_decision nested w r x (some n) g st = st
  dispatch_decision nested w none x none g st = st
  dispatch_decision nested w (some r) x none g st =
      let q = decision_request st.runner x g r in
      after_decision nested x.scaling_group_key (w.decide st.calls q) (with_call (decided q) st)

  abbrev pub dispatch_resize :
      Env F P → Workers F P → String → ScalingGroupSpec P → Option ℤ → Dispatch F P → Dispatch F P
  dispatch_resize e w key g none st =
      after_worker e (w.resize st.calls g.compute (pos 1))
        (with_call (resized key g.compute (pos 1)) st)
  dispatch_resize e w key g (some (negsuc n)) st = st
  dispatch_resize e w key g (some (pos n)) st =
      after_worker e (w.resize st.calls g.compute (pos n))
        (with_call (resized key g.compute (pos n)) st)

  -- The `switch` on the action, for a group of the specification.
  abbrev pub dispatch_to :
      (List ScalingAction → Dispatch F P → Dispatch F P)
      → Env F P
      → Workers F P
      → Option SignalTaskAddRequest
      → ScalingAction
      → ActionType
      → ScalingGroupSpec P
      → Dispatch F P
      → Dispatch F P
  dispatch_to nested e w r x deferred_scaling_decision g st =
      dispatch_decision nested w r x x.count g st
  dispatch_to nested e w r x invoke_worker g st =
      after_worker e (w.invoke st.calls g.compute)
        (with_call (invoked x.scaling_group_key g.compute) st)
  dispatch_to nested e w r x update_worker_set_size g st =
      dispatch_resize e w x.scaling_group_key g x.count st
  dispatch_to nested e w r x (unknown_action s) g st = st

  abbrev pub dispatch_found :
      (List ScalingAction → Dispatch F P → Dispatch F P)
      → Env F P
      → Workers F P
      → Option SignalTaskAddRequest
      → ScalingAction
      → Option (ScalingGroupSpec P)
      → Dispatch F P
      → Dispatch F P
  dispatch_found nested e w r x none st = st
  dispatch_found nested e w r x (some g) st = dispatch_to nested e w r x x.action g st

  -- One round of the loop. Nothing runs after a panic.
  unfoldable pub handle_action :
      (List ScalingAction → Dispatch F P → Dispatch F P)
      → Env F P
      → Workers F P
      → Option SignalTaskAddRequest
      → ScalingAction
      → Dispatch F P
      → Dispatch F P
  handle_action nested e w r x st = if_running st.panicked st (
      if str_eq x.scaling_group_key ""
      then st
      else dispatch_found nested e w r x
          (lookup x.scaling_group_key (current_groups st.runner.spec)) st)

  unfoldable pub each_action :
      (List ScalingAction → Dispatch F P → Dispatch F P)
      → Env F P
      → Workers F P
      → Option SignalTaskAddRequest
      → List ScalingAction
      → Dispatch F P
      → Dispatch F P
  each_action nested e w r [] st = st
  each_action nested e w r (x ∷ xs) st =
      each_action nested e w r xs (handle_action nested e w r x st)

  -- The first argument bounds the depth of the nesting. A state without a specification has no group.
  unfoldable pub handle_actions :
      ℕ
      → Env F P
      → Workers F P
      → Option SignalTaskAddRequest
      → List ScalingAction
      → Dispatch F P
      → Dispatch F P
  handle_actions zero e w r xs st = st
  handle_actions (suc depth) e w r xs st = each_action (handle_actions depth e w none) e w r xs st

  abbrev pub with_statuses : StatusMap F → Dispatch F P → Dispatch F P
  with_statuses none st = st
  with_statuses (some m) st = record st { runner = record st.runner { scaling_status = some m } }

  abbrev pub after_task_add :
      Env F P
      → Workers F P
      → SignalTaskAddRequest
      → Result ActivityError (TaskAddActivityResponse F)
      → Dispatch F P
      → Dispatch F P
  after_task_add e w r (err x) st = st
  after_task_add e w r (ok x) st =
      handle_actions 2 e w (some r) x.actions (with_statuses x.updated_scaling_status st)

  abbrev pub no_sync_match :
      Env F P → Workers F P → Option SignalTaskAddRequest → Dispatch F P → Dispatch F P
  no_sync_match e w none st = st
  no_sync_match e w (some r) st =
      after_task_add e w r (w.task_add st.calls r st.runner.spec st.runner.scaling_status)
        (with_call (asked r) st)

  -- Nothing runs after a panic.
  unfoldable pub handle_no_sync_match_signal :
      Env F P → Workers F P → Option SignalTaskAddRequest → Dispatch F P → Dispatch F P
  handle_no_sync_match_signal e w r st =
      if_running st.panicked st
        (if_running (not (worker_controller_enabled e st.runner)) st (no_sync_match e w r st))

  abbrev pub after_pull :
      Env F P
      → Workers F P
      → Result ActivityError (PullStatsResponse F)
      → Dispatch F P
      → Dispatch F P × ℕ
  after_pull e w (err x) st = (st, max_poll_seconds)
  after_pull e w (ok x) st = (
    handle_actions 2 e w none x.actions (with_statuses x.updated_scaling_status st),
    x.next_poll_seconds,
  )

  -- The state after a poll, and the seconds until the next one.
  unfoldable pub pull_stats_and_update : Env F P → Workers F P → Dispatch F P → Dispatch F P × ℕ
  pull_stats_and_update e w st =
      if is_empty (current_groups st.runner.spec) || not (worker_controller_enabled e st.runner)
      then (st, max_poll_seconds)
      else after_pull e w (w.pull st.runner.spec st.runner.scaling_status) st

  abbrev pub with_runner : Runner F P → Dispatch F P → Dispatch F P
  with_runner d st = record st { runner = d }

  -- The state after the signal at the front of the queue, and whether there was one.
  abbrev pub process_next_of :
      Env F P
      → Workers F P
      → List (Option SignalTaskAddRequest)
      → Dispatch F P
      → Dispatch F P × Bool
  process_next_of e w [] st = (st, false)
  process_next_of e w (r ∷ rs) st =
      (handle_no_sync_match_signal e w r (with_runner (with_pending rs st.runner) st), true)

  unfoldable pub process_next_queued_task_add_signal :
      Env F P → Workers F P → Dispatch F P → Dispatch F P × Bool
  process_next_queued_task_add_signal e w st = process_next_of e w st.runner.pending st

  unfoldable pub handle_all :
      Env F P → Workers F P → List (Option SignalTaskAddRequest) → Dispatch F P → Dispatch F P
  handle_all e w [] st = st
  handle_all e w (r ∷ rs) st = handle_all e w rs (handle_no_sync_match_signal e w r st)

  unfoldable pub process_pending_task_add_signals :
      Env F P → Workers F P → Dispatch F P → Dispatch F P
  process_pending_task_add_signals e w st =
      handle_all e w st.runner.pending (with_runner (with_pending [] st.runner) st)
