-- ===== src/Scaling/RateBased/Decisions.antt =====
-- rate_based.go: the operations of the algorithm.
use temporal_auto_scaled_wor.Prelude.{
  ℤ, pos, ltb_ℤ, leb_ℤ, eq_ℤ, add32, sub32, sub64, max_ℤ, min_ℤ, milliseconds, if◌then◌else◌, not,
  ◌&&◌, String, Option, none, some, List, [], ◌∷◌, Map, insert, Float64, Result, ok, err,
}
use temporal_auto_scaled_wor.Iface.Types.{
  Value, int64, ScalingAlgorithmConfig, ScalingAlgorithmStatus, SignalTaskAddRequest,
}
use temporal_auto_scaled_wor.Iface.MapAccess.{get_int64_from_map}
use temporal_auto_scaled_wor.Scaling.Registry.{
  ScalingAction, update_worker_set_size, deferred_scaling_decision, action_of,
  ScalingMetricsSnapshot, TaskAddResponse, MetricsPollResponse, TaskQueueRegistrationResponse,
}
use temporal_auto_scaled_wor.Scaling.RateBased.{
  worker_count_key, last_up_key, last_down_key, last_no_sync_key, zero_float, is_positive_finite,
  min_count, max_count, max_step, up_cooldown_ms, down_cooldown_ms, quiet_ms, poll_interval_ms,
  material_backlog, clean_state, planned_count, AggregateMetrics, aggregate, update_ewma,
  snap_idle_ewma_to_zero, update_capacity, desired_capacity,
}

module _ (F : Float64) where
  abbrev pub time_at : Map (Value F) → String → ℤ
  time_at m k = get_int64_from_map F (some m) k (pos 0)

  abbrev pub resize : ℤ → ScalingAction
  resize n = action_of update_worker_set_size (some n)

  abbrev pub deferred : ScalingAction
  deferred = action_of deferred_scaling_decision none

  -- The cleaned state with the planned count written to it.
  unfoldable pub counted_state : ScalingAlgorithmConfig F → ScalingAlgorithmStatus F → Map (Value F)
  counted_state config prior =
      let m = clean_state F prior in insert worker_count_key (int64 (planned_count F config m)) m

  abbrev pub current_count : ScalingAlgorithmConfig F → ScalingAlgorithmStatus F → ℤ
  current_count config prior = planned_count F config (clean_state F prior)

  unfoldable pub process_task_add :
      ℤ
      → ScalingAlgorithmConfig F
      → ScalingAlgorithmStatus F
      → SignalTaskAddRequest
      → TaskAddResponse F
  process_task_add now config prior request =
      let batched = request.no_sync_match_signals_since_last in
      let count = current_count config prior in
      let counted = counted_state config prior in
      let bumped = insert last_no_sync_key (int64 now) counted in
      let next = add32 count (pos 1) in
      if request.is_sync_match && eq_ℤ batched (pos 0)
      then record { actions = []; status = some counted; throttled_count = pos 0 }
      else if leb_ℤ (max_count F config) count
      then record { actions = deferred ∷ []; status = some bumped; throttled_count = batched }
      else if ltb_ℤ (sub64 now (time_at bumped last_up_key)) (up_cooldown_ms F config)
      then record { actions = deferred ∷ []; status = some bumped; throttled_count = batched }
      else record {
        actions = resize next ∷ deferred ∷ [];
        status =
            some (insert last_up_key (int64 now) (insert worker_count_key (int64 next) bumped));
        throttled_count = pos 0;
      }

  -- The getter is nil, or fetches a snapshot, which may be nil, or fails.
  pub data DeferredError (E : Type 0) : Type 0 where
    no_getter : DeferredError E
    fetch_failed : E → DeferredError E

  unfoldable pub sampled_state :
      ScalingAlgorithmConfig F → ScalingAlgorithmStatus F → AggregateMetrics F → Map (Value F)
  sampled_state config prior a =
      if a.has_data
      then update_capacity F config (counted_state config prior) (current_count config prior)
          a.dispatch_rate
      else counted_state config prior

  abbrev pub keep_status : Map (Value F) → TaskAddResponse F
  keep_status m = record { actions = []; status = some m; throttled_count = pos 0 }

  unfoldable pub process_deferred_scaling_decision :
      {E : Type 0}
      → ScalingAlgorithmConfig F
      → ScalingAlgorithmStatus F
      → Option (Result E (Option (ScalingMetricsSnapshot F)))
      → Result (DeferredError E) (TaskAddResponse F)
  process_deferred_scaling_decision config prior none = err no_getter
  process_deferred_scaling_decision config prior (some fetched) =
      if leb_ℤ (current_count config prior) (pos 0)
      then ok (keep_status (counted_state config prior))
      else elim fetched [
        | err e ↦ err (fetch_failed e)
        | ok s ↦ ok (keep_status (sampled_state config prior (aggregate F s)))
      ]

  -- The state with the estimates of a poll.
  unfoldable pub measured_state :
      ScalingAlgorithmConfig F → ScalingAlgorithmStatus F → AggregateMetrics F → Map (Value F)
  measured_state config prior a =
      let count = current_count config prior in
      let counted = counted_state config prior in
      let averaged = if a.has_data then update_ewma F config counted a else counted in
      let snapped = snap_idle_ewma_to_zero F averaged a in
      if leb_ℤ (material_backlog F config) a.backlog
        && ltb_ℤ (pos 0) count
        && not (F.le a.dispatch_rate (zero_float F))
        && is_positive_finite F (F.div a.dispatch_rate (F.of_int count))
      then update_capacity F config snapped count a.dispatch_rate
      else snapped

  unfoldable pub scale_up :
      ℤ → ScalingAlgorithmConfig F → ℤ → ℤ → Map (Value F) → List ScalingAction × Map (Value F)
  scale_up now config count desired m =
      let room = sub32 (max_count F config) count in
      let add = min_ℤ (min_ℤ (max_step F config) (sub32 desired count)) room in
      let next = add32 count add in
      if not (leb_ℤ (up_cooldown_ms F config) (sub64 now (time_at m last_up_key)))
      then ([], m)
      else if ltb_ℤ (pos 0) add
      then (
        resize next ∷ [],
        insert last_up_key (int64 now) (insert worker_count_key (int64 next) m),
      )
      else ([], m)

  unfoldable pub scale_down :
      ℤ → ScalingAlgorithmConfig F → ℤ → Map (Value F) → List ScalingAction × Map (Value F)
  scale_down now config count m =
      let next = max_ℤ (min_count F config) (sub32 count (pos 1)) in
      if not (
        leb_ℤ (quiet_ms F config) (sub64 now (time_at m last_no_sync_key))
        && leb_ℤ (down_cooldown_ms F config) (sub64 now (time_at m last_down_key)))
      then ([], m)
      else if not (eq_ℤ next count)
      then (
        resize next ∷ [],
        insert last_down_key (int64 now) (insert worker_count_key (int64 next) m),
      )
      else ([], m)

  unfoldable pub decide :
      ℤ → ScalingAlgorithmConfig F → ℤ → ℤ → Map (Value F) → List ScalingAction × Map (Value F)
  decide now config count desired m =
      if ltb_ℤ count desired
      then scale_up now config count desired m
      else if ltb_ℤ desired count
      then scale_down now config count m
      else ([], m)

  unfoldable pub process_metrics_poll :
      ℤ
      → ScalingAlgorithmConfig F
      → ScalingAlgorithmStatus F
      → ScalingMetricsSnapshot F
      → MetricsPollResponse F
  process_metrics_poll now config prior snapshot =
      let a = aggregate F (some snapshot) in
      let m = measured_state config prior a in
      let d =
        decide now config (current_count config prior) (desired_capacity F config m a.backlog) m in
      record {
        actions = d.0;
        status = some d.1;
        next_poll = some (milliseconds (poll_interval_ms F config));
      }

  unfoldable pub task_queue_registration_actions :
      ScalingAlgorithmConfig F → ScalingAlgorithmStatus F → TaskQueueRegistrationResponse F
  task_queue_registration_actions config status =
      let planned = current_count config status in
      let size = max_ℤ (pos 1) (min_ℤ (max_ℤ planned (min_count F config)) (max_count F config)) in
      record {
        actions = resize size ∷ [];
        status = some (insert worker_count_key (int64 size) (clean_state F status));
      }

  unfoldable pub inactive_group_actions : ScalingAlgorithmStatus F → MetricsPollResponse F
  inactive_group_actions status =
      let stored = get_int64_from_map F (some (clean_state F status)) worker_count_key (pos 0) in
      record {
        actions = if leb_ℤ stored (pos 0) then [] else resize (pos 0) ∷ [];
        status = some ((worker_count_key, int64 (pos 0)) ∷ []);
        next_poll = none;
      }
