-- ===== src/Scaling/NoSync.antt =====
-- wci/workflow/scaling_algorithm/no_sync_match.go: the algorithm that invokes a worker when a task
-- finds no poller, or when a poll of the metrics sees a backlog. The current time in milliseconds is
-- an argument of each call.
pub mod Config
pub mod State
pub mod Spacing
pub mod Suppression
use Prim.Native.String.{◌++◌ as ◌+text◌}
use temporal_auto_scaled_wor.Prelude.{
  ℕ, ℤ, pos, negsuc, ltb_ℤ, leb_ℤ, eq_ℤ, add64, sub64, milliseconds, if◌then◌else◌, Bool, true,
  false, not, ◌&&◌, ◌||◌, String, Option, none, some, List, [], ◌∷◌, Map, lookup, insert, delete,
  keep_keys, Float64, any, str_eq,
}
use temporal_auto_scaled_wor.Iface.Types.{
  Value, int64, float64, null, TaskQueueType, unspecified, workflow, activity, nexus,
  ScalingAlgorithmConfig, ScalingAlgorithmStatus, QueueTypeScalingMetrics, SignalTaskAddRequest,
}
use temporal_auto_scaled_wor.Iface.MapAccess.{get_int64_from_map, get_float64_from_map}
use temporal_auto_scaled_wor.Iface.Spec.{contains}
use temporal_auto_scaled_wor.Scaling.Registry.{
  ScalingAction, invoke_worker, action_of, ScalingMetricsSnapshot, TaskAddResponse,
  MetricsPollResponse, TaskQueueRegistrationResponse,
}

abbrev pub cooloff_key : String
cooloff_key = "scale_up_cooloff_ms"

abbrev pub backlog_threshold_key : String
backlog_threshold_key = "scale_up_backlog_threshold"

abbrev pub max_lifetime_key : String
max_lifetime_key = "max_worker_lifetime_ms"

abbrev pub epsilon_key : String
epsilon_key = "scale_up_dispatch_rate_epsilon"

abbrev pub confirm_key : String
confirm_key = "scale_up_dispatch_rate_epsilon_confirm_ms"

abbrev pub poll_interval_key : String
poll_interval_key = "metrics_poll_interval_ms"

abbrev pub suppress_key : String
suppress_key = "suppress_scale_up_ms"

abbrev pub suppress_poll_key : String
suppress_poll_key = "suppress_poll_interval_ms"

abbrev pub last_scale_up_key : String
last_scale_up_key = "last_scale_up_time_ms"

abbrev pub within_since_key : String → String
within_since_key q = q +text "_dispatch_rate_within_epsilon_since_ms"

abbrev pub suppress_until_key : String → String
suppress_until_key q = q +text "_suppress_scale_up_until_ms"

abbrev pub ref_rate_key : String → String
ref_rate_key q = q +text "_dispatch_ref_rate"

-- `queueTypeName[t]`, "" for a type that the map lacks.
abbrev pub queue_type_name : TaskQueueType → String
queue_type_name unspecified = ""
queue_type_name workflow = "workflow"
queue_type_name activity = "activity"
queue_type_name nexus = "nexus"

abbrev pub valid_state_keys : List String
valid_state_keys =
    last_scale_up_key
    ∷ within_since_key "workflow"
    ∷ suppress_until_key "workflow"
    ∷ ref_rate_key "workflow"
    ∷ within_since_key "activity"
    ∷ suppress_until_key "activity"
    ∷ ref_rate_key "activity"
    ∷ within_since_key "nexus"
    ∷ suppress_until_key "nexus"
    ∷ ref_rate_key "nexus"
    ∷ []

module _ (F : Float64) where
  abbrev pub State : Type 0
  State = Map (Value F)

  abbrev pub entries : Option (Map (Value F)) → Map (Value F)
  entries none = []
  entries (some m) = m

  abbrev pub cooloff_ms : ScalingAlgorithmConfig F → ℤ
  cooloff_ms config = get_int64_from_map F config cooloff_key (pos 100)

  abbrev pub backlog_threshold : ScalingAlgorithmConfig F → ℤ
  backlog_threshold config = get_int64_from_map F config backlog_threshold_key (pos 0)

  abbrev pub max_lifetime_ms : ScalingAlgorithmConfig F → ℤ
  max_lifetime_ms config = get_int64_from_map F config max_lifetime_key (pos 600000)

  abbrev pub confirm_ms : ScalingAlgorithmConfig F → ℤ
  confirm_ms config = get_int64_from_map F config confirm_key (pos 90000)

  abbrev pub poll_interval_ms : ScalingAlgorithmConfig F → ℤ
  poll_interval_ms config = get_int64_from_map F config poll_interval_key (pos 60000)

  abbrev pub suppress_ms : ScalingAlgorithmConfig F → ℤ
  suppress_ms config = get_int64_from_map F config suppress_key (pos 120000)

  abbrev pub suppress_poll_ms : ScalingAlgorithmConfig F → ℤ
  suppress_poll_ms config = get_int64_from_map F config suppress_poll_key (pos 90000)

  abbrev pub zero_rate : F.Carrier
  zero_rate = F.decimal (pos 0) 0

  abbrev pub epsilon_max : F.Carrier
  epsilon_max = F.decimal (pos 10) 2

  -- 0, disabled, outside (0, max].
  unfoldable pub dispatch_rate_epsilon : ScalingAlgorithmConfig F → F.Carrier
  dispatch_rate_epsilon config =
      let epsilon = get_float64_from_map F config epsilon_key zero_rate in
      if F.lt zero_rate epsilon && F.le epsilon epsilon_max then epsilon else zero_rate

  -- A copy of the prior state without unknown keys.
  unfoldable pub clean_state : ScalingAlgorithmStatus F → Map (Value F)
  clean_state prior = keep_keys (contains valid_state_keys) (entries prior)

  abbrev pub last_scale_up_ms : ScalingAlgorithmStatus F → ℤ
  last_scale_up_ms prior = get_int64_from_map F prior last_scale_up_key (pos 0)

  -- A task that found no poller, by itself or in the batch.
  abbrev pub is_no_sync_match : SignalTaskAddRequest → Bool
  is_no_sync_match event =
      not event.is_sync_match || ltb_ℤ (pos 0) event.no_sync_match_signals_since_last

  unfoldable pub is_suppressed :
      ScalingAlgorithmConfig F → ScalingAlgorithmStatus F → TaskQueueType → ℤ → Bool
  is_suppressed config prior t now =
      F.lt zero_rate (dispatch_rate_epsilon config)
      && ltb_ℤ now (get_int64_from_map F prior (suppress_until_key (queue_type_name t)) (pos 0))

  unfoldable pub process_task_add :
      ℤ
      → ScalingAlgorithmConfig F
      → ScalingAlgorithmStatus F
      → SignalTaskAddRequest
      → TaskAddResponse F
  process_task_add now config prior event =
      let updated = clean_state prior in
      let batched = event.no_sync_match_signals_since_last in
      let elapsed = sub64 now (last_scale_up_ms prior) in
      if not (is_no_sync_match event)
      then record { actions = []; status = some updated; throttled_count = pos 0 }
      else if is_suppressed config prior event.task_queue_type now
      then record { actions = []; status = some updated; throttled_count = batched }
      else if leb_ℤ (cooloff_ms config) elapsed
      then record {
        actions = action_of invoke_worker none ∷ [];
        status = some (insert last_scale_up_key (int64 now) updated);
        throttled_count = pos 0;
      }
      else record { actions = []; status = some updated; throttled_count = batched }

  unfoldable pub process_deferred_scaling_decision : ScalingAlgorithmStatus F → TaskAddResponse F
  process_deferred_scaling_decision prior = record {
    actions = [];
    status = prior;
    throttled_count = pos 0;
  }

  unfoldable pub task_queue_registration_actions :
      ScalingAlgorithmStatus F → TaskQueueRegistrationResponse F
  task_queue_registration_actions status = record {
    actions = action_of invoke_worker none ∷ [];
    status = status;
  }

  unfoldable pub inactive_group_actions : MetricsPollResponse F
  inactive_group_actions = record { actions = []; status = none; next_poll = none }

module _ (F : Float64) where
  -- What the detector keeps of a queue.
  pub record Detector : Type 0 where
    pub within_since : ℤ
    pub suppress_until : ℤ
    pub ref_rate : F.Carrier

module _ (F : Float64) where
  unfoldable pub read_detector : ScalingAlgorithmStatus F → String → Detector F
  read_detector prior q = record {
    within_since = get_int64_from_map F prior (within_since_key q) (pos 0);
    suppress_until = get_int64_from_map F prior (suppress_until_key q) (pos 0);
    ref_rate = get_float64_from_map F prior (ref_rate_key q) (F.decimal (negsuc 0) 0);
  }

  unfoldable pub write_detector : String → Detector F → Map (Value F) → Map (Value F)
  write_detector q d m = insert (suppress_until_key q) (int64 d.suppress_until) (
      insert (ref_rate_key q) (float64 d.ref_rate)
        (insert (within_since_key q) (int64 d.within_since) m))

  unfoldable pub delete_detector : String → Map (Value F) → Map (Value F)
  delete_detector q m =
      delete (ref_rate_key q) (delete (within_since_key q) (delete (suppress_until_key q) m))

  -- The rate left the band around the reference rate.
  abbrev pub outside_band : F.Carrier → Detector F → F.Carrier → Bool
  outside_band epsilon d rate =
      F.le (zero_rate F) d.ref_rate
      && F.lt (F.mul epsilon d.ref_rate) (F.abs (F.sub rate d.ref_rate))

  -- The `switch` of the detector.
  unfoldable pub detect :
      ScalingAlgorithmConfig F → Detector F → QueueTypeScalingMetrics F → ℤ → Detector F
  detect config d metrics now =
      let rate = metrics.last_processing_rate in
      let scale_up_for_backlog = ltb_ℤ (backlog_threshold F config) metrics.last_backlog_count in
      let outside = outside_band (dispatch_rate_epsilon F config) d rate in
      if not scale_up_for_backlog || outside || F.le rate (zero_rate F)
      then record {
        within_since = pos 0;
        suppress_until = pos 0;
        ref_rate = F.decimal (negsuc 0) 0;
      }
      else if eq_ℤ d.within_since (pos 0)
      then record d { within_since = now; ref_rate = rate }
      else if leb_ℤ (confirm_ms F config) (sub64 now d.within_since)
      then record d { suppress_until = add64 now (suppress_ms F config) }
      else d

  -- The answer, and the updated state.
  unfoldable pub should_suppress :
      ScalingAlgorithmConfig F
      → ScalingAlgorithmStatus F
      → Map (Value F)
      → String
      → Option (QueueTypeScalingMetrics F)
      → ℤ
      → Bool × Map (Value F)
  should_suppress config prior updated q metrics now =
      if F.eq (dispatch_rate_epsilon F config) (zero_rate F)
      then (false, delete_detector q updated)
      else elim metrics [
        | none ↦ (false, updated)
        | some m ↦
            let d = detect config (read_detector prior q) m now in
            (ltb_ℤ now d.suppress_until, write_detector q d updated)
      ]

  -- Does one queue ask for a worker?
  unfoldable pub wants_worker :
      ScalingAlgorithmConfig F → ℤ → Bool → Option (QueueTypeScalingMetrics F) → Bool
  wants_worker config elapsed suppressed none = false
  wants_worker config elapsed suppressed (some m) =
      let backlog = m.last_backlog_count in
      let for_backlog =
        ltb_ℤ (backlog_threshold F config) backlog
        && leb_ℤ (cooloff_ms F config) elapsed
        && not suppressed in
      for_backlog
      || (ltb_ℤ (pos 0) (max_lifetime_ms F config)
          && ltb_ℤ (pos 0) backlog
          && leb_ℤ (max_lifetime_ms F config) elapsed)

  -- What the loop over the queues carries.
  pub record Round : Type 0 where
    pub updated : Map (Value F)
    pub suppressed_any : Bool
    pub scale_up : Bool

module _ (F : Float64) where
  unfoldable pub poll_queue :
      ScalingAlgorithmConfig F
      → ScalingAlgorithmStatus F
      → ℤ
      → String
      → Option (QueueTypeScalingMetrics F)
      → Round F
      → Round F
  poll_queue config prior now q metrics r =
      let (suppressed, updated) = should_suppress F config prior r.updated q metrics now in
      let elapsed = sub64 now (last_scale_up_ms F prior) in
      record {
        updated = updated;
        suppressed_any = r.suppressed_any || suppressed;
        scale_up = r.scale_up || wants_worker F config elapsed suppressed metrics;
      }

  unfoldable pub poll_queues :
      ScalingAlgorithmConfig F → ScalingAlgorithmStatus F → ℤ → ScalingMetricsSnapshot F → Round F
  poll_queues config prior now snapshot =
      let start : Round F = record {
        updated = clean_state F prior;
        suppressed_any = false;
        scale_up = false;
      } in
      poll_queue config prior now "nexus" snapshot.nexus (
        poll_queue config prior now "activity" snapshot.activity
          (poll_queue config prior now "workflow" snapshot.workflow start))

  unfoldable pub process_metrics_poll :
      ℤ
      → ScalingAlgorithmConfig F
      → ScalingAlgorithmStatus F
      → ScalingMetricsSnapshot F
      → MetricsPollResponse F
  process_metrics_poll now config prior snapshot =
      let r = poll_queues config prior now snapshot in
      let next =
        if r.suppressed_any then suppress_poll_ms F config else poll_interval_ms F config in
      record {
        actions = if r.scale_up then action_of invoke_worker none ∷ [] else [];
        status =
            some (if r.scale_up then insert last_scale_up_key (int64 now) r.updated else r.updated);
        next_poll = some (milliseconds next);
      }
