-- ===== src/Workflow.antt =====
-- wci/workflow/workflow.go: the workflow of one worker controller instance. A handler runs to its
-- end before the next one starts; the results of activities and of the lock are in `Env`.
pub mod Updates
pub mod Invariant
pub mod Queue
pub mod Actions
pub mod Run
pub mod DryRun
pub mod Validation
pub mod Deployed
use temporal_auto_scaled_wor.Prelude.{
  ℕ, suc, ltb, leb, ◌==◌, if◌then◌else◌, Bool, true, false, not, ◌&&◌, ◌||◌, String, str_eq, Option,
  none, some, List, [], ◌∷◌, ◌++◌, length, is_empty, first_some, Map, Float64, Result, ok, err,
}
use temporal_auto_scaled_wor.Iface.Types.{
  ScalingAlgorithmStatus, ScalingGroupSpecUpdate, Groups, UpdateRequest, SignalTaskAddRequest,
}
use temporal_auto_scaled_wor.Iface.Spec.{SpecError, validate}
use temporal_auto_scaled_wor.Activities.{ActivityError}
use temporal_auto_scaled_wor.Iface.SpecUpdate.{MaskError, build_updated_spec}

-- Times are numbers; a failure has its message.
pub data ValidationStatus : Type 0 where
  success : ℕ → ValidationStatus
  failed : ℕ → String → ValidationStatus

pub data HandlerError : Type 0 where
  disabled instance_deleted long_history lock_timeout no_change token_mismatch : HandlerError
  bad_update : MaskError → HandlerError
  invalid_spec : SpecError → HandlerError
  invalid_argument resource_exhausted failed_precondition activity_failed : String → HandlerError

pub record ValidateSpecRequest (P : Type 0) : Type 0 where
  pub identity : String
  pub upsert_scaling_groups : Map (ScalingGroupSpecUpdate P)
  pub remove_scaling_groups : List String

-- The versions of the workflow's logic that its code asks for.
abbrev pub signal_version_workflow_version : ℕ
signal_version_workflow_version = 2

abbrev pub cancel_timers_on_delete_version : ℕ
cancel_timers_on_delete_version = 3

abbrev pub check_enabled_version : ℕ
check_enabled_version = 4

abbrev pub max_pending_task_add_signals : ℕ
max_pending_task_add_signals = 4000

module _ (F : Float64) (P : Type 0) where
  abbrev pub Statuses : Type 0
  Statuses = Option (Map (ScalingAlgorithmStatus F))

  -- The local state, the runner's flags, and the statuses sent to the version workflow. A request
  -- of `none` is a nil pointer.
  pub record Runner : Type 0 where
    pub spec : Option (Groups P)
    pub scaling_status : Statuses
    pub pending : List (Option SignalTaskAddRequest)
    pub conflict_token : Option (List ℕ)
    pub validation_status : Option ValidationStatus
    pub version : ℕ
    pub limit_pending : Bool
    pub delete_instance : Bool
    pub timers_cancelled : Bool
    pub state_changed : Bool
    pub sent : List ValidationStatus

  -- What the outside answers during one handler.
  pub record Env : Type 0 where
    pub now : ℕ
    pub enabled : Bool
    pub continue_as_new_suggested : Bool
    pub lock_fails : Bool
    pub order : List String → List String
    pub validate_spec : Groups P → List String → Result ActivityError (Unit {0})
    pub register_task_queues : Groups P → Statuses → Result ActivityError Statuses

abbrev pub sent_with : Option ValidationStatus → List ValidationStatus → List ValidationStatus
sent_with none sent = sent
sent_with (some s) sent = sent ++ (s ∷ [])

module _ {F : Float64} {P : Type 0} where
  abbrev pub has_min_version : Runner F P → ℕ → Bool
  has_min_version d v = leb v d.version

  -- The checks of the handlers; `none` is no error.
  abbrev pub worker_controller_enabled : Env F P → Runner F P → Bool
  worker_controller_enabled e d = not (has_min_version d check_enabled_version) || e.enabled

  abbrev pub ensure_enabled : Env F P → Runner F P → Option HandlerError
  ensure_enabled e d = if worker_controller_enabled e d then none else some disabled

  abbrev pub ensure_not_deleted : Runner F P → Option HandlerError
  ensure_not_deleted d = if d.delete_instance then some instance_deleted else none

  abbrev pub pre_update_checks : Env F P → Runner F P → Option HandlerError
  pre_update_checks e d = first_some (
      ensure_not_deleted d ∷ (if e.continue_as_new_suggested then some long_history else none) ∷ [])

  unfoldable pub signal_version_workflow : Runner F P → Runner F P
  signal_version_workflow d =
      if has_min_version d signal_version_workflow_version
      then record d { sent = sent_with d.validation_status d.sent }
      else d

  unfoldable pub mark_deleted : Runner F P → Runner F P
  mark_deleted d = record d {
    delete_instance = true;
    timers_cancelled = d.timers_cancelled || has_min_version d cancel_timers_on_delete_version;
  }

  abbrev pub should_continue_as_new : Env F P → Runner F P → Bool
  should_continue_as_new e d = d.delete_instance || d.state_changed || e.continue_as_new_suggested

  abbrev pub with_status : ValidationStatus → Runner F P → Runner F P
  with_status s d = signal_version_workflow (record d { validation_status = some s })
