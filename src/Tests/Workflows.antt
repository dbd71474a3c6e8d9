-- ===== src/Tests/Workflows.antt =====
-- workflow.go: the theorems at a concrete instance.
use temporal_auto_scaled_wor.Prelude.{
  ℕ, pos, ◌-◌, ◌++◌, length, none, some, List, [], ◌∷◌, lookup, insert, delete as delete_key, ok,
  true, false, ◌≡◌, inr, refl, arith,
}
use temporal_auto_scaled_wor.Iface.Types.{UpdateRequest}
use temporal_auto_scaled_wor.Iface.Spec.{
  valid_compute_provider_type, valid_scaling_algorithm_type, claim_rank, claimed_group,
  scaling_group_key_for_task_queue_type, effective_task_types_for_group,
  task_types_served_in_region, clone, regions_distinct, add_catch_alls, add_task_types, add_regions,
  algorithm_error, provider_error, check_group, check_groups, check_catch_alls, collect_regions,
  text_le, insert_sorted, sort, listed_region_ids, check_regions_after, check_regions, validate,
}
use temporal_auto_scaled_wor.Iface.SpecUpdate.{
  set_scaler_type, set_scaler_details, apply_path, apply_field_mask, changes_provider, clone_all,
  upsert, upsert_all, remove_all, build_updated_spec,
}
use temporal_auto_scaled_wor.Workflow.{
  ValidateSpecRequest, Runner, Env, max_pending_task_add_signals, signal_version_workflow,
}
use temporal_auto_scaled_wor.Workflow.Updates.{
  handle_validate_spec, handle_update_instance, validate_update_instance, update_to,
}
use temporal_auto_scaled_wor.Workflow.Invariant.{
  IsUpdateAnswer, handle_update_instance-IsUpdateAnswer,
}
use temporal_auto_scaled_wor.Workflow.Queue.{
  IsLimited, take, received, drain_task_add_signal_channel, drain_task_add_signal_channel-IsLimited,
}
use temporal_auto_scaled_wor.Workflow.DryRun.{handle_validate_spec_unchanged}
use temporal_auto_scaled_wor.Workflow.Run.{
  IsWellFormed, Message, update, delete, periodic, signal, poll, batch, run, run-IsWellFormed,
  run-deleted, validate_update_instance-again,
}
use temporal_auto_scaled_wor.Activities.TaskAdd.{handle_task_add_signal}
use temporal_auto_scaled_wor.Activities.Deferred.{handle_deferred_scaling_decision}
use temporal_auto_scaled_wor.Activities.PullStats.{pull_stats}
use temporal_auto_scaled_wor.Scaling.Registry.{
  action_of, ScalingAction, update_worker_set_size, deferred_scaling_decision,
}
use temporal_auto_scaled_wor.Workflow.Actions.{Workers, Dispatch, handle_actions, handle_all}
use temporal_auto_scaled_wor.Workflow.Actions.Nesting.{handle_actions-depth}
use temporal_auto_scaled_wor.Workflow.Actions.Safety.{IsPart, asks, handle_actions-IsPart}
use temporal_auto_scaled_wor.Workflow.Actions.Panic.{IsTaskAddActivity, handle_all-panicked}
use temporal_auto_scaled_wor.Workflow.Actions.Batch.{batches}
use temporal_auto_scaled_wor.Workflow.Actions.Batch.Progress.{signals, batches-drain}
use temporal_auto_scaled_wor.Tests.Activities.{process}
use temporal_auto_scaled_wor.Tests.Decimal.{Decimals}
use temporal_auto_scaled_wor.Tests.Scalers.{missed}
use temporal_auto_scaled_wor.Tests.Specs.{group_of, two_groups, two_groups_valid, as_given}

abbrev pub runner : Runner Decimals ℕ
runner = record {
  spec = some two_groups;
  scaling_status = none;
  pending = some missed ∷ [];
  conflict_token = some (1 ∷ []);
  validation_status = none;
  version = 4;
  limit_pending = true;
  delete_instance = false;
  timers_cancelled = false;
  state_changed = false;
  sent = [];
}

abbrev pub env : Env Decimals ℕ
env = record {
  now = 100;
  enabled = true;
  continue_as_new_suggested = false;
  lock_fails = false;
  order = as_given;
  validate_spec = λ groups skip. ok tt;
  register_task_queues = λ groups s. ok s;
}

-- The request keeps the groups as they are: a new group's name with no mask on an old one.
abbrev touch : UpdateRequest ℕ
touch = record {
  identity = "me";
  conflict_token = some (1 ∷ []);
  upsert_scaling_groups = ("a", record { spec = group_of [] [] 9; update_mask = [] }) ∷ [];
  remove_scaling_groups = [];
}

handle_update_instance-IsUpdateAnswer_example :
    IsUpdateAnswer env runner touch (handle_update_instance env runner touch)
handle_update_instance-IsUpdateAnswer_example =
    handle_update_instance-IsUpdateAnswer env runner touch

-- The activities as they are, of a process that does not change, and workers that always start.
abbrev workers : Workers Decimals ℕ
workers = record {
  invoke = λ cs c. ok tt;
  resize = λ cs c n. ok tt;
  decide = λ cs q. handle_deferred_scaling_decision process q;
  task_add = λ cs r g s. ok (handle_task_add_signal process r g s);
  pull = λ g s. pull_stats process g s;
}

abbrev messages : List (Env Decimals ℕ × Message Decimals ℕ)
messages =
    (env, update touch)
    ∷ (env, periodic)
    ∷ (env, signal (some missed))
    ∷ (env, poll workers)
    ∷ (env, batch workers (some missed ∷ []))
    ∷ (env, delete)
    ∷ []

run-IsWellFormed_example : IsWellFormed (run messages runner)
run-IsWellFormed_example = run-IsWellFormed messages runner (inr two_groups_valid)

abbrev deleted_runner : Runner Decimals ℕ
deleted_runner = record runner { delete_instance = true }

run-deleted_example :
    ((run messages deleted_runner).delete_instance ≡ true)
    × ((run messages deleted_runner).spec ≡ some two_groups)
run-deleted_example = run-deleted messages deleted_runner refl

drain_task_add_signal_channel-IsLimited_example :
    IsLimited (drain_task_add_signal_channel (none ∷ some missed ∷ []) runner)
    × ((drain_task_add_signal_channel (none ∷ some missed ∷ []) runner).pending
        ≡ runner.pending
          ++ take
              (max_pending_task_add_signals - length runner.pending)
              (received (none ∷ some missed ∷ [])))
drain_task_add_signal_channel-IsLimited_example =
    drain_task_add_signal_channel-IsLimited (none ∷ some missed ∷ []) runner (refl, omega arith)

touch_succeeds : (handle_update_instance env runner touch).0 ≡ ok (some two_groups)
unfolding handle_update_instance update_to valid_compute_provider_type valid_scaling_algorithm_type
    claim_rank claimed_group scaling_group_key_for_task_queue_type effective_task_types_for_group
    task_types_served_in_region clone regions_distinct add_catch_alls add_task_types add_regions
    algorithm_error provider_error check_group check_groups check_catch_alls collect_regions text_le
    insert_sorted sort listed_region_ids check_regions_after check_regions validate set_scaler_type
    set_scaler_details apply_path apply_field_mask changes_provider clone_all upsert upsert_all
    remove_all build_updated_spec insert delete_key lookup
touch_succeeds = refl

touch_keeps : (handle_update_instance env runner touch).1.delete_instance ≡ false
unfolding handle_update_instance update_to signal_version_workflow valid_compute_provider_type
    valid_scaling_algorithm_type claim_rank claimed_group scaling_group_key_for_task_queue_type
    effective_task_types_for_group task_types_served_in_region clone regions_distinct add_catch_alls
    add_task_types add_regions algorithm_error provider_error check_group check_groups
    check_catch_alls collect_regions text_le insert_sorted sort listed_region_ids
    check_regions_after check_regions validate set_scaler_type set_scaler_details apply_path
    apply_field_mask changes_provider clone_all upsert upsert_all remove_all build_updated_spec
    insert delete_key lookup
touch_keeps = refl

touch_accepted : validate_update_instance runner touch ≡ none
unfolding validate_update_instance
touch_accepted = refl

validate_update_instance-again_example :
    validate_update_instance (handle_update_instance env runner touch).1 touch ≡ none
validate_update_instance-again_example =
    validate_update_instance-again env runner touch (some two_groups) touch_accepted touch_succeeds
      touch_keeps

abbrev trial : ValidateSpecRequest ℕ
trial = record {
  identity = "me";
  upsert_scaling_groups = touch.upsert_scaling_groups;
  remove_scaling_groups = "b" ∷ [];
}

handle_validate_spec_unchanged_example : (handle_validate_spec env runner trial).1 ≡ runner
handle_validate_spec_unchanged_example = handle_validate_spec_unchanged env runner trial refl

abbrev dispatch : Dispatch Decimals ℕ
dispatch = record { runner = runner; calls = []; panicked = false }

abbrev two_actions : List ScalingAction
two_actions =
    record (action_of update_worker_set_size (some (pos 2))) { scaling_group_key = "a" }
    ∷ record (action_of deferred_scaling_decision none) { scaling_group_key = "a" }
    ∷ []

handle_actions-depth_example :
    handle_actions 7 env workers (some missed) two_actions dispatch
    ≡ handle_actions 2 env workers (some missed) two_actions dispatch
handle_actions-depth_example = handle_actions-depth 5 env workers (some missed) two_actions dispatch

handle_actions-IsPart_example :
    IsPart dispatch (handle_actions 2 env workers (some missed) two_actions dispatch)
handle_actions-IsPart_example =
    handle_actions-IsPart 2 env workers (some missed) two_actions dispatch

workers-IsTaskAddActivity : IsTaskAddActivity workers
workers-IsTaskAddActivity cs r g s x h = (process, cc)

handle_all-panicked_example :
    (handle_all env workers (some missed ∷ none ∷ some missed ∷ []) dispatch).panicked ≡ false
handle_all-panicked_example =
    handle_all-panicked env workers (some missed ∷ none ∷ some missed ∷ []) dispatch
      workers-IsTaskAddActivity refl

batches-drain_example :
    ((batches env workers 1 dispatch).runner.pending ≡ [])
    × (asks (batches env workers 1 dispatch).calls ≡ asks dispatch.calls ++ signals runner.pending)
batches-drain_example =
    batches-drain env workers 1 dispatch (refl, refl) workers-IsTaskAddActivity refl (omega arith)
