-- ===== src/Scaling/NoSync/Suppression.antt =====
-- no_sync_match.go: the suppression of scale-ups, across polls and signals.
use temporal_auto_scaled_wor.Prelude.{
  ℤ, pos, ◌≤ℤ◌, ◌<ℤ◌, add64, sub64, eq_of_parts, if◌then◌else◌, Bool, true, false, String, str_eq,
  Option, none, some, List, [], ◌∷◌, All, Map, lookup, insert, lookup-insert, Float64, ◌≡◌, ◌≢◌,
  ◌⊎◌, refl, ◌∙◌, arith, Bool-cases, inl, inr,
}
use temporal_auto_scaled_wor.Iface.Types.{
  Value, int64, TaskQueueType, unspecified, workflow, activity, nexus, ScalingAlgorithmConfig,
  ScalingAlgorithmStatus, QueueTypeScalingMetrics, SignalTaskAddRequest,
}
use temporal_auto_scaled_wor.Iface.MapAccess.{field, get_int64_from_map}
use temporal_auto_scaled_wor.Iface.Spec.{contains}
use temporal_auto_scaled_wor.Scaling.Registry.{ScalingMetricsSnapshot}
use temporal_auto_scaled_wor.Scaling.NoSync.{
  clean_state, valid_state_keys, last_scale_up_key, suppress_until_key, queue_type_name,
  dispatch_rate_epsilon, zero_rate, backlog_threshold, confirm_ms, suppress_ms, outside_band,
  is_suppressed, Detector, read_detector, detect, write_detector, should_suppress, wants_worker,
  poll_queue, poll_queues, process_task_add, process_metrics_poll,
}
use temporal_auto_scaled_wor.Scaling.NoSync.State.{should_suppress-other, clean_state-lookup}

module _ (F : Float64) where
  abbrev pub metrics_of :
      TaskQueueType → ScalingMetricsSnapshot F → Option (QueueTypeScalingMetrics F)
  metrics_of unspecified s = none
  metrics_of workflow s = s.workflow
  metrics_of activity s = s.activity
  metrics_of nexus s = s.nexus

  should_suppress-until :
      (config : ScalingAlgorithmConfig F) (prior : ScalingAlgorithmStatus F) (m : Map (Value F))
      (q : String) (x : QueueTypeScalingMetrics F) (now : ℤ)
      → F.eq (dispatch_rate_epsilon F config) (zero_rate F) ≡ false
      → str_eq (suppress_until_key q) (suppress_until_key q) ≡ true
      → lookup (suppress_until_key q) (should_suppress F config prior m q (some x) now).1
        ≡ some (int64 (detect F config (read_detector F prior q) x now).suppress_until)
  unfolding should_suppress write_detector
  should_suppress-until config prior m q x now e s = simp (e, lookup-insert, s)

  poll_queues-until :
      (config : ScalingAlgorithmConfig F) (prior : ScalingAlgorithmStatus F) (now : ℤ)
      (s : ScalingMetricsSnapshot F) (t : TaskQueueType) (x : QueueTypeScalingMetrics F)
      → F.eq (dispatch_rate_epsilon F config) (zero_rate F) ≡ false
      → metrics_of t s ≡ some x
      → lookup (suppress_until_key (queue_type_name t)) (poll_queues F config prior now s).updated
        ≡ some (
            int64
              (detect F config (read_detector F prior (queue_type_name t)) x now).suppress_until)
  unfolding poll_queues poll_queue
  poll_queues-until config prior now s unspecified x e h = cc
  poll_queues-until config prior now s workflow x e h =
      should_suppress-other F (suppress_until_key "workflow") config prior _ "nexus" s.nexus now
        (refl, refl, refl)
      ∙ should_suppress-other F (suppress_until_key "workflow") config prior _ "activity" s.activity
          now (refl, refl, refl)
      ∙ rw h (should_suppress-until config prior _ "workflow" x now e refl)
  poll_queues-until config prior now s activity x e h =
      should_suppress-other F (suppress_until_key "activity") config prior _ "nexus" s.nexus now
        (refl, refl, refl)
      ∙ rw h (should_suppress-until config prior _ "activity" x now e refl)
  poll_queues-until config prior now s nexus x e h =
      rw h (should_suppress-until config prior _ "nexus" x now e refl)

  last_scale_up_key-ne :
      (t : TaskQueueType)
      → str_eq last_scale_up_key (suppress_until_key (queue_type_name t)) ≡ false
  last_scale_up_key-ne unspecified = refl
  last_scale_up_key-ne workflow = refl
  last_scale_up_key-ne activity = refl
  last_scale_up_key-ne nexus = refl

  lookup-if_insert :
      (up : Bool) (j k : String) (v : Value F) (m : Map (Value F))
      → str_eq j k ≡ false
      → lookup k (if up then insert j v m else m) ≡ lookup k m
  lookup-if_insert true j k v m h = lookup-insert j k v m ∙ rw h
  lookup-if_insert false j k v m h = refl

  -- The status after a poll has the deadline of a polled queue's suppression.
  poll-until :
      (config : ScalingAlgorithmConfig F) (prior : ScalingAlgorithmStatus F) (now : ℤ)
      (s : ScalingMetricsSnapshot F) (t : TaskQueueType) (x : QueueTypeScalingMetrics F)
      → F.eq (dispatch_rate_epsilon F config) (zero_rate F) ≡ false
      → metrics_of t s ≡ some x
      → get_int64_from_map F
          (process_metrics_poll F now config prior s).status
          (suppress_until_key (queue_type_name t))
          (pos 0)
        ≡ (detect F config (read_detector F prior (queue_type_name t)) x now).suppress_until
  unfolding process_metrics_poll get_int64_from_map
  poll-until config prior now s t x e h = rw (
    lookup-if_insert (poll_queues F config prior now s).scale_up last_scale_up_key
        (suppress_until_key (queue_type_name t)) (int64 now)
        (poll_queues F config prior now s).updated (last_scale_up_key-ne t),
    poll_queues-until config prior now s t x e h,
  )

  -- What makes the detector confirm a steady dispatch rate.
  pub record Confirms (config : ScalingAlgorithmConfig F) (d : Detector F)
      (x : QueueTypeScalingMetrics F) (now : ℤ) : Type 0 where
    pub has_backlog : backlog_threshold F config <ℤ x.last_backlog_count
    pub in_band : outside_band F (dispatch_rate_epsilon F config) d x.last_processing_rate ≡ false
    pub dispatches : F.le x.last_processing_rate (zero_rate F) ≡ false
    pub started : d.within_since ≢ pos 0
    pub confirmed : confirm_ms F config ≤ℤ sub64 now d.within_since

  detect-until :
      (config : ScalingAlgorithmConfig F) (d : Detector F) (x : QueueTypeScalingMetrics F) (now : ℤ)
      → Confirms config d x now
      → (detect F config d x now).suppress_until ≡ add64 now (suppress_ms F config)
  unfolding detect
  detect-until config d x now c = ground (arith, eq_of_parts d.within_since (pos 0))

  process_task_add-suppressed :
      (config : ScalingAlgorithmConfig F) (status : ScalingAlgorithmStatus F) (now : ℤ)
      (r : SignalTaskAddRequest)
      → is_suppressed F config status r.task_queue_type now ≡ true
      → (process_task_add F now config status r).actions ≡ []
  unfolding process_task_add
  process_task_add-suppressed config status now r h = ground arith

  until_of : ScalingAlgorithmStatus F → TaskQueueType → ℤ
  until_of status t = get_int64_from_map F status (suppress_until_key (queue_type_name t)) (pos 0)

  same_field :
      (k : String) (m : Map (Value F)) (status : ScalingAlgorithmStatus F)
      → lookup k m ≡ field F status k
      → get_int64_from_map F (some m) k (pos 0) ≡ get_int64_from_map F status k (pos 0)
  unfolding get_int64_from_map
  same_field k m status h = rw h

  polled_key :
      (t : TaskQueueType) (s : ScalingMetricsSnapshot F) (x : QueueTypeScalingMetrics F)
      → metrics_of t s ≡ some x
      → contains valid_state_keys (suppress_until_key (queue_type_name t)) ≡ true
  polled_key unspecified s x h = cc
  polled_key workflow s x h = refl
  polled_key activity s x h = refl
  polled_key nexus s x h = refl

  -- A signal of any queue type leaves the deadlines of the suppressions alone.
  task_add-until :
      (config : ScalingAlgorithmConfig F) (status : ScalingAlgorithmStatus F) (now : ℤ)
      (r : SignalTaskAddRequest) (t : TaskQueueType)
      → contains valid_state_keys (suppress_until_key (queue_type_name t)) ≡ true
      → until_of (process_task_add F now config status r).status t ≡ until_of status t
  unfolding process_task_add until_of
  task_add-until config status now r t known =
      let key = suppress_until_key (queue_type_name t) in
      let clean = clean_state F status in
      let kept = clean_state-lookup F key status known in
      ground (
        arith,
        same_field key clean status kept,
        same_field key (insert last_scale_up_key (int64 now) clean) status (
            lookup-if_insert true last_scale_up_key key (int64 now) clean (last_scale_up_key-ne t)
            ∙ kept),
      )

  -- Over signals, each with its time, none of a queue type starts a worker.
  abbrev pub IsQuiet :
      ScalingAlgorithmConfig F
      → ScalingAlgorithmStatus F
      → TaskQueueType
      → List (ℤ × SignalTaskAddRequest)
      → Type 0
  IsQuiet config status t [] = Unit {0}
  IsQuiet config status t ((later, r) ∷ rs) =
      (r.task_queue_type ≡ t → (process_task_add F later config status r).actions ≡ [])
      × IsQuiet config (process_task_add F later config status r).status t rs

  suppressed-IsQuiet :
      (config : ScalingAlgorithmConfig F) (status : ScalingAlgorithmStatus F) (t : TaskQueueType)
      (until : ℤ) (rs : List (ℤ × SignalTaskAddRequest))
      → F.lt (zero_rate F) (dispatch_rate_epsilon F config) ≡ true
      → contains valid_state_keys (suppress_until_key (queue_type_name t)) ≡ true
      → until_of status t ≡ until
      → All (λ e. e.0 <ℤ until) rs
      → IsQuiet config status t rs
  unfolding is_suppressed until_of
  suppressed-IsQuiet config status t until [] enabled known h before = tt
  suppressed-IsQuiet config status t until ((later, r) ∷ rs) enabled known h before = (
    λ same.
        process_task_add-suppressed config status later r
          (rw (enabled, same, h) (ground (arith, before.0))),
    suppressed-IsQuiet config (process_task_add F later config status r).status t until rs enabled
        known (task_add-until config status later r t known ∙ h) before.1,
  )

  -- Once a poll confirms that a queue dispatches at a steady rate, the signals that follow, of any
  -- queue types, start no worker for that type before the suppression time after the poll has
  -- passed, whatever the poll found in the other queues and until the next poll, which decides anew.
  -- The detector is enabled: its band is above 0, and so not equal to 0.
  pub poll-suppresses-signals :
      (config : ScalingAlgorithmConfig F) (prior : ScalingAlgorithmStatus F) (now : ℤ)
      (s : ScalingMetricsSnapshot F) (t : TaskQueueType) (x : QueueTypeScalingMetrics F)
      (rs : List (ℤ × SignalTaskAddRequest))
      → F.lt (zero_rate F) (dispatch_rate_epsilon F config) ≡ true
      → F.eq (dispatch_rate_epsilon F config) (zero_rate F) ≡ false
      → metrics_of t s ≡ some x
      → Confirms config (read_detector F prior (queue_type_name t)) x now
      → All (λ e. e.0 <ℤ add64 now (suppress_ms F config)) rs
      → IsQuiet config (process_metrics_poll F now config prior s).status t rs
  unfolding until_of
  poll-suppresses-signals config prior now s t x rs enabled nonzero h c before =
      suppressed-IsQuiet config (process_metrics_poll F now config prior s).status t
        (add64 now (suppress_ms F config)) rs enabled (polled_key t s x h)
        (poll-until config prior now s t x nonzero h
          ∙ detect-until config (read_detector F prior (queue_type_name t)) x now c)
        before

  abbrev pub HasBacklog : Option (QueueTypeScalingMetrics F) → Type 0
  HasBacklog none = ⊥
  HasBacklog (some x) = pos 0 <ℤ x.last_backlog_count

  wants_worker-HasBacklog :
      (config : ScalingAlgorithmConfig F) (elapsed : ℤ) (suppressed : Bool)
      (m : Option (QueueTypeScalingMetrics F))
      → pos 0 ≤ℤ backlog_threshold F config
      → wants_worker F config elapsed suppressed m ≡ true
      → HasBacklog m
  unfolding wants_worker
  wants_worker-HasBacklog config elapsed suppressed none b h = cc
  wants_worker-HasBacklog config elapsed suppressed (some m) b h = ground arith

  poll_queues-HasBacklog :
      (config : ScalingAlgorithmConfig F) (prior : ScalingAlgorithmStatus F) (now : ℤ)
      (s : ScalingMetricsSnapshot F)
      → pos 0 ≤ℤ backlog_threshold F config
      → (poll_queues F config prior now s).scale_up ≡ true
      → HasBacklog s.workflow ⊎ HasBacklog s.activity ⊎ HasBacklog s.nexus
  unfolding poll_queues poll_queue
  poll_queues-HasBacklog config prior now s b h = grind (arith, wants_worker-HasBacklog)

  -- A poll asks for a worker only if some queue has a backlog; the threshold is not negative.
  pub poll_needs_backlog :
      (config : ScalingAlgorithmConfig F) (prior : ScalingAlgorithmStatus F) (now : ℤ)
      (s : ScalingMetricsSnapshot F)
      → pos 0 ≤ℤ backlog_threshold F config
      → (process_metrics_poll F now config prior s).actions ≢ []
      → HasBacklog s.workflow ⊎ HasBacklog s.activity ⊎ HasBacklog s.nexus
  unfolding process_metrics_poll
  poll_needs_backlog config prior now s b h =
      elim (Bool-cases (poll_queues F config prior now s).scale_up) [
        | inl up ↦ poll_queues-HasBacklog config prior now s b up
        | inr down ↦ absurd (h (rw down))
      ]
