-- ===== src/Scaling/NoSync/State.antt =====
-- no_sync_match.go: which entries of the state the algorithm touches.
use temporal_auto_scaled_wor.Prelude.{
  ℤ, true, false, String, str_eq, eq_iff, Option, none, some, Map, lookup, keep_keys, lookup-insert,
  lookup-delete, lookup-keep_keys, Float64, ◌≡◌, refl, sym, ap, ◌∙◌, arith, Bool-cases, inl, inr,
  false≢true,
}
use temporal_auto_scaled_wor.Iface.Types.{
  Value, int64, ScalingAlgorithmConfig, ScalingAlgorithmStatus, QueueTypeScalingMetrics,
  SignalTaskAddRequest,
}
use temporal_auto_scaled_wor.Iface.MapAccess.{field}
use temporal_auto_scaled_wor.Iface.Spec.{contains}
use temporal_auto_scaled_wor.Scaling.Registry.{ScalingMetricsSnapshot}
use temporal_auto_scaled_wor.Scaling.NoSync.{
  last_scale_up_key, within_since_key, suppress_until_key, ref_rate_key, valid_state_keys,
  clean_state, Detector, read_detector, detect, write_detector, delete_detector, should_suppress,
  poll_queue, poll_queues, entries, process_task_add, process_metrics_poll,
}

-- The keys of a queue's detector are other than a given one.
abbrev pub HasOtherKeys : String → String → Type 0
HasOtherKeys q k =
    (str_eq (within_since_key q) k ≡ false)
    × (str_eq (suppress_until_key q) k ≡ false)
    × (str_eq (ref_rate_key q) k ≡ false)

module _ (F : Float64) (k : String) where
  pub clean_state-lookup :
      (prior : ScalingAlgorithmStatus F)
      → contains valid_state_keys k ≡ true
      → lookup k (clean_state F prior) ≡ field F prior k
  unfolding clean_state lookup keep_keys
  clean_state-lookup none h = refl
  clean_state-lookup (some m) h = lookup-keep_keys (contains valid_state_keys) k m ∙ rw h

  pub clean_state-unknown :
      (prior : ScalingAlgorithmStatus F)
      → contains valid_state_keys k ≡ false
      → lookup k (clean_state F prior) ≡ none
  unfolding clean_state
  clean_state-unknown prior h =
      lookup-keep_keys (contains valid_state_keys) k (entries F prior) ∙ rw h

  write_detector-other :
      (q : String) (d : Detector F) (m : Map (Value F))
      → HasOtherKeys q k
      → lookup k (write_detector F q d m) ≡ lookup k m
  unfolding write_detector
  write_detector-other q d m h = simp (lookup-insert, h.0, h.1, h.2)

  delete_detector-other :
      (q : String) (m : Map (Value F))
      → HasOtherKeys q k
      → lookup k (delete_detector F q m) ≡ lookup k m
  unfolding delete_detector
  delete_detector-other q m h = simp (lookup-delete, h.0, h.1, h.2)

  -- The detector of a queue writes its own keys alone.
  pub should_suppress-other :
      (config : ScalingAlgorithmConfig F) (prior : ScalingAlgorithmStatus F) (m : Map (Value F))
      (q : String) (metrics : Option (QueueTypeScalingMetrics F)) (now : ℤ)
      → HasOtherKeys q k
      → lookup k (should_suppress F config prior m q metrics now).1 ≡ lookup k m
  unfolding should_suppress
  should_suppress-other config prior m q none now h = ground (arith, delete_detector-other q m h)
  should_suppress-other config prior m q (some x) now h = ground (
    arith,
    delete_detector-other q m h,
    write_detector-other q (detect F config (read_detector F prior q) x now) m h,
  )

  pub poll_queues-other :
      (config : ScalingAlgorithmConfig F) (prior : ScalingAlgorithmStatus F) (now : ℤ)
      (snapshot : ScalingMetricsSnapshot F)
      → contains valid_state_keys k ≡ true
      → HasOtherKeys "workflow" k
      → HasOtherKeys "activity" k
      → HasOtherKeys "nexus" k
      → lookup k (poll_queues F config prior now snapshot).updated ≡ field F prior k
  unfolding poll_queues poll_queue
  poll_queues-other config prior now snapshot v a b c =
      should_suppress-other config prior _ "nexus" snapshot.nexus now c
      ∙ should_suppress-other config prior _ "activity" snapshot.activity now b
      ∙ should_suppress-other config prior _ "workflow" snapshot.workflow now a
      ∙ clean_state-lookup prior v

-- A key that is not valid is not one of the valid ones.
unknown-ne :
    (k j : String)
    → contains valid_state_keys k ≡ false
    → contains valid_state_keys j ≡ true
    → str_eq j k ≡ false
unknown-ne k j h v = elim (Bool-cases (str_eq j k)) [
  | inl e ↦
      absurd (false≢true (sym h ∙ ap (contains valid_state_keys) (sym ((eq_iff j k).0 e)) ∙ v))
  | inr e ↦ e
]

module _ (F : Float64) (k : String) (unknown : contains valid_state_keys k ≡ false) where
  other_keys :
      (q : String)
      → contains valid_state_keys (within_since_key q) ≡ true
      → contains valid_state_keys (suppress_until_key q) ≡ true
      → contains valid_state_keys (ref_rate_key q) ≡ true
      → HasOtherKeys q k
  other_keys q a b c = (
    unknown-ne k (within_since_key q) unknown a,
    unknown-ne k (suppress_until_key q) unknown b,
    unknown-ne k (ref_rate_key q) unknown c,
  )

  poll_queues-unknown :
      (config : ScalingAlgorithmConfig F) (prior : ScalingAlgorithmStatus F) (now : ℤ)
      (snapshot : ScalingMetricsSnapshot F)
      → lookup k (poll_queues F config prior now snapshot).updated ≡ none
  unfolding poll_queues poll_queue
  poll_queues-unknown config prior now snapshot =
      should_suppress-other F k config prior _ "nexus" snapshot.nexus now
        (other_keys "nexus" refl refl refl)
      ∙ should_suppress-other F k config prior _ "activity" snapshot.activity now
          (other_keys "activity" refl refl refl)
      ∙ should_suppress-other F k config prior _ "workflow" snapshot.workflow now
          (other_keys "workflow" refl refl refl)
      ∙ clean_state-unknown F k prior unknown

  -- Neither a signal nor a poll leaves an entry under a key that the algorithm does not know,
  -- whatever the prior state holds.
  no_unknown_entries :
      (config : ScalingAlgorithmConfig F) (prior : ScalingAlgorithmStatus F) (now : ℤ)
      (event : SignalTaskAddRequest) (snapshot : ScalingMetricsSnapshot F)
      → (field F (process_task_add F now config prior event).status k ≡ none)
        × (field F (process_metrics_poll F now config prior snapshot).status k ≡ none)
  unfolding process_task_add process_metrics_poll
  no_unknown_entries config prior now event snapshot = (
    ground (
      arith,
      clean_state-unknown F k prior unknown,
      lookup-insert last_scale_up_key k (int64 now) (clean_state F prior),
      unknown-ne k last_scale_up_key unknown refl,
    ),
    ground (
      arith,
      poll_queues-unknown config prior now snapshot,
      lookup-insert last_scale_up_key k (int64 now)
          (poll_queues F config prior now snapshot).updated,
      unknown-ne k last_scale_up_key unknown refl,
    ),
  )
