-- ===== src/Tests/Scalers.antt =====
-- map_access.go, no_sync_match.go and rate_based.go: the theorems at concrete configurations,
-- states and metrics.
use temporal_auto_scaled_wor.Prelude.{
  max_ℤ, ℤ, pos, negsuc, pos_part, ◌≤ℤ◌, ◌+ℤ◌, ◌-ℤ◌, add64, sub64, wrap64, none, some, List, [],
  ◌∷◌, Map, lookup, false, ◌≡◌, refl, ap, arith,
}
use temporal_auto_scaled_wor.Iface.Types.{
  Value, int64, float64, workflow, ScalingAlgorithmConfig, ScalingAlgorithmStatus,
  QueueTypeScalingMetrics, SignalTaskAddRequest,
}
use temporal_auto_scaled_wor.Iface.MapAccess.{
  get_int64_from_map, get_float64_from_map, int64_or, float64_or, validate_int64_in_map,
  int64_error, validate_float64_in_map, float64_error, validate_int64_in_map-get_int64_from_map,
}
use temporal_auto_scaled_wor.Scaling.Registry.{ScalingMetricsSnapshot}
use temporal_auto_scaled_wor.Scaling.NoSync
use temporal_auto_scaled_wor.Scaling.NoSync.Spacing.{
  Event, task_add, poll, IsSpaced, invocations, invocations-IsSpaced,
}
use temporal_auto_scaled_wor.Scaling.NoSync.Suppression.{IsQuiet, poll-suppresses-signals}
use temporal_auto_scaled_wor.Scaling.RateBased
use temporal_auto_scaled_wor.Scaling.RateBased.Decisions.{
  current_count, counted_state, measured_state,
}
use temporal_auto_scaled_wor.Scaling.RateBased.Decisions
use temporal_auto_scaled_wor.Scaling.RateBased.State.{IsClean, clean_state-IsClean}
use temporal_auto_scaled_wor.Scaling.RateBased.Config.{
  IsBounded, IsValid, validate_config, validate_config-IsBounded, validate_config-IsValid,
}
use temporal_auto_scaled_wor.Scaling.RateBased.Counts.{
  process_metrics_poll-current_count, process_task_add-current_count,
  task_queue_registration_actions-current_count,
}
use temporal_auto_scaled_wor.Scaling.RateBased.Bounds.{IsDecision, process_metrics_poll-IsDecision}
use temporal_auto_scaled_wor.Tests.Decimal.{Decimals, Decimals-laws}

abbrev step_config : ScalingAlgorithmConfig Decimals
step_config = some (("max_scale_up_step", int64 (pos 3)) ∷ [])

validate_int64_in_map-get_int64_from_map_example :
    pos 1 ≤ℤ get_int64_from_map Decimals step_config "max_scale_up_step" (pos 4)
unfolding validate_int64_in_map int64_error lookup
validate_int64_in_map-get_int64_from_map_example =
    validate_int64_in_map-get_int64_from_map Decimals Decimals-laws step_config "max_scale_up_step"
      (pos 1) (pos 4) (omega arith) (omega arith) (omega arith) tt refl

abbrev metrics : ℤ → QueueTypeScalingMetrics Decimals
metrics backlog = record {
  last_backlog_count = backlog;
  last_arrival_rate = some (pos 5000);
  last_processing_rate = some (pos 5000);
  last_backlog_age = pos 0;
}

abbrev snapshot : ℤ → ScalingMetricsSnapshot Decimals
snapshot backlog = record { workflow = some (metrics backlog); activity = none; nexus = none }

abbrev pub missed : SignalTaskAddRequest
missed = record {
  task_queue_name = "q";
  task_queue_type = workflow;
  is_sync_match = false;
  sync_match_signals_since_last = pos 0;
  no_sync_match_signals_since_last = pos 1;
}

abbrev run : List (Event Decimals)
run =
    task_add (pos 1000) missed
    ∷ task_add (pos 1050) missed
    ∷ poll (pos 1200) (snapshot (pos 2))
    ∷ []

invocations-IsSpaced_example : IsSpaced Decimals none (pos 0) (invocations Decimals none none run)
unfolding get_int64_from_map int64_or
invocations-IsSpaced_example =
    invocations-IsSpaced Decimals none none run (refl, (omega arith, omega arith))
      (
        (refl, (omega arith, omega arith)),
        ((refl, (omega arith, omega arith)), ((refl, (omega arith, omega arith)), tt)),
      )

-- The band is a tenth around a reference rate of 5 tasks per second.
abbrev band_config : ScalingAlgorithmConfig Decimals
band_config = some ((NoSync.epsilon_key, float64 (some (pos 100))) ∷ [])

abbrev steady_status : ScalingAlgorithmStatus Decimals
steady_status = some (
    (NoSync.within_since_key "workflow", int64 (pos 100000))
    ∷ (NoSync.ref_rate_key "workflow", float64 (some (pos 5000)))
    ∷ [])

-- Two signals of the suppressed type.
abbrev two_signals : List (ℤ × SignalTaskAddRequest)
two_signals = (pos 250000, missed) ∷ (pos 260000, missed) ∷ []

poll-suppresses-signals_example :
    IsQuiet Decimals band_config
      (NoSync.process_metrics_poll Decimals
        (pos 200000)
        band_config
        steady_status
        (snapshot (pos 3))).status
      workflow
      two_signals
unfolding NoSync.dispatch_rate_epsilon NoSync.read_detector get_float64_from_map float64_or
    get_int64_from_map int64_or lookup wrap64 add64 sub64 ◌+ℤ◌ ◌-ℤ◌
poll-suppresses-signals_example =
    poll-suppresses-signals Decimals band_config steady_status (pos 200000) (snapshot (pos 3))
      workflow (metrics (pos 3)) two_signals refl refl refl
      (record {
        has_backlog = omega arith;
        in_band = refl;
        dispatches = refl;
        started = λ e. absurd (omega (ap pos_part e, arith));
        confirmed = omega arith;
      })
      (omega arith, (omega arith, tt))

step_config_valid : validate_config Decimals step_config ≡ none
unfolding validate_config validate_int64_in_map int64_error validate_float64_in_map float64_error
    get_int64_from_map int64_or get_float64_from_map float64_or lookup
step_config_valid = refl

validate_config-IsValid_example : IsValid Decimals step_config
validate_config-IsValid_example =
    validate_config-IsValid Decimals (("max_scale_up_step", int64 (pos 3)) ∷ []) step_config_valid

step_config-IsBounded : IsBounded Decimals step_config
step_config-IsBounded =
    validate_config-IsBounded Decimals (("max_scale_up_step", int64 (pos 3)) ∷ []) step_config_valid

clean_state-IsClean_example :
    IsClean Decimals
      (RateBased.clean_state Decimals (some ((RateBased.worker_count_key, int64 (negsuc 4)) ∷ [])))
clean_state-IsClean_example =
    clean_state-IsClean Decimals (some ((RateBased.worker_count_key, int64 (negsuc 4)) ∷ []))

abbrev three_workers : ScalingAlgorithmStatus Decimals
three_workers = some ((RateBased.worker_count_key, float64 (some (pos 3000))) ∷ [])

process_metrics_poll-IsDecision_example :
    let a = RateBased.aggregate Decimals (some (snapshot (pos 60))) in
    let m = measured_state Decimals step_config three_workers a in
    let r =
      RateBased.Decisions.process_metrics_poll Decimals
        (pos 500000)
        step_config
        three_workers
        (snapshot (pos 60)) in
    (m' : Map (Value Decimals)) × (r.status ≡ some m')
    × IsDecision Decimals
        (pos 500000)
        step_config
        (current_count Decimals step_config three_workers)
        (RateBased.desired_capacity Decimals step_config m a.backlog)
        m
        (r.actions, m')
process_metrics_poll-IsDecision_example =
    process_metrics_poll-IsDecision Decimals Decimals-laws (pos 500000) step_config three_workers
      (snapshot (pos 60)) step_config-IsBounded

process_metrics_poll-current_count_example :
    let count = current_count Decimals step_config three_workers in
    let next =
      current_count Decimals step_config
        (RateBased.Decisions.process_metrics_poll Decimals
          (pos 500000)
          step_config
          three_workers
          (snapshot (pos 60))).status in
    (count ≤ℤ next +ℤ pos 1)
    × (next ≤ℤ count +ℤ RateBased.max_step Decimals step_config)
    × (RateBased.min_count Decimals step_config ≤ℤ count
        → RateBased.min_count Decimals step_config ≤ℤ next)
    × (count ≤ℤ RateBased.max_count Decimals step_config
        → next ≤ℤ RateBased.max_count Decimals step_config)
process_metrics_poll-current_count_example =
    process_metrics_poll-current_count Decimals Decimals-laws (pos 500000) step_config three_workers
      (snapshot (pos 60)) step_config-IsBounded

process_task_add-current_count_example :
    let count = current_count Decimals step_config three_workers in
    let next =
      current_count Decimals step_config
        (RateBased.Decisions.process_task_add Decimals
          (pos 500000)
          step_config
          three_workers
          missed).status in
    (count ≤ℤ next)
    × (next ≤ℤ count +ℤ pos 1)
    × (count ≤ℤ RateBased.max_count Decimals step_config
        → next ≤ℤ RateBased.max_count Decimals step_config)
process_task_add-current_count_example =
    process_task_add-current_count Decimals Decimals-laws (pos 500000) step_config three_workers
      missed step_config-IsBounded

task_queue_registration_actions-current_count_example :
    let response =
      RateBased.Decisions.task_queue_registration_actions Decimals step_config three_workers in
    let next = current_count Decimals step_config response.status in
    (response.actions ≡ RateBased.Decisions.resize Decimals next ∷ [])
    × (pos 1 ≤ℤ next)
    × (next ≤ℤ max_ℤ (pos 1) (RateBased.max_count Decimals step_config))
task_queue_registration_actions-current_count_example =
    task_queue_registration_actions-current_count Decimals step_config three_workers
      step_config-IsBounded
