-- ===== src/Scaling/NoSync/Spacing.antt =====
-- no_sync_match.go: how far apart the invocations of workers are, over any run of task-add signals
-- and metrics polls.
use temporal_auto_scaled_wor.Prelude.{
  ℤ, pos, ◌≤ℤ◌, ◌<ℤ◌, ◌-ℤ◌, sub64, sub64_exact, IsInt64, IsNonNeg, Bool, true, Option, none, some,
  List, [], ◌∷◌, Map, lookup, insert, lookup-insert, Float64, ◌++◌, All, ◌≡◌, refl, sym, subst, ◌⊎◌,
  inl, inr, arith, Bool-cases,
}
use temporal_auto_scaled_wor.Iface.Types.{
  Value, int64, ScalingAlgorithmConfig, ScalingAlgorithmStatus, QueueTypeScalingMetrics,
  SignalTaskAddRequest,
}
use temporal_auto_scaled_wor.Iface.MapAccess.{field, get_int64_from_map}
use temporal_auto_scaled_wor.Scaling.Registry.{
  invoke_worker, action_of, ScalingAction, ScalingMetricsSnapshot,
}
use temporal_auto_scaled_wor.Scaling.NoSync.State.{clean_state-lookup, poll_queues-other}
use temporal_auto_scaled_wor.Scaling.NoSync.{
  last_scale_up_key, clean_state, cooloff_ms, max_lifetime_ms, last_scale_up_ms, process_task_add,
  wants_worker, poll_queue, poll_queues, process_metrics_poll,
}

module _ (F : Float64) where
  -- A signal or a poll, with the time of its activity.
  pub data Event : Type 0 where
    task_add : ℤ → SignalTaskAddRequest → Event
    poll : ℤ → ScalingMetricsSnapshot F → Event

  abbrev pub time_of : Event → ℤ
  time_of (task_add t r) = t
  time_of (poll t m) = t

  abbrev pub step :
      ScalingAlgorithmConfig F
      → ScalingAlgorithmStatus F
      → Event
      → List ScalingAction × ScalingAlgorithmStatus F
  step config status (task_add t r) =
      let a = process_task_add F t config status r in (a.actions, a.status)
  step config status (poll t m) =
      let a = process_metrics_poll F t config status m in (a.actions, a.status)

  -- A time for each of a step's actions: the algorithm has no other action than to start one worker.
  abbrev pub times_of : ℤ → List ScalingAction → List ℤ
  times_of t [] = []
  times_of t (a ∷ later) = t ∷ times_of t later

  -- The times at which a run asks for a worker, one for each worker asked for.
  unfoldable pub invocations :
      ScalingAlgorithmConfig F → ScalingAlgorithmStatus F → List Event → List ℤ
  invocations config status [] = []
  invocations config status (e ∷ es) =
      let (actions, status') = step config status e in
      times_of (time_of e) actions ++ invocations config status' es

  -- The cooloff has elapsed between two times, or else the lifetime of a worker, where that is set.
  abbrev pub IsGap : ScalingAlgorithmConfig F → ℤ → Type 0
  IsGap config gap =
      (cooloff_ms F config ≤ℤ gap)
      ⊎ ((pos 0 <ℤ max_lifetime_ms F config) × (max_lifetime_ms F config ≤ℤ gap))

  abbrev pub IsSpaced : ScalingAlgorithmConfig F → ℤ → List ℤ → Type 0
  IsSpaced config last [] = Unit {0}
  IsSpaced config last (t ∷ ts) = IsGap config (t -ℤ last) × IsSpaced config t ts

  -- A time is a non-negative int64.
  abbrev pub IsTime : ℤ → Type 0
  IsTime t = IsNonNeg t × IsInt64 t

  -- What one step does: it asks for no worker and keeps the recorded time of the last scale-up, or
  -- it asks for exactly one and records the time.
  abbrev StepFacts :
      ScalingAlgorithmConfig F
      → ScalingAlgorithmStatus F
      → ℤ
      → List ScalingAction × ScalingAlgorithmStatus F
      → Type 0
  StepFacts config status now (actions, status') =
      ((actions ≡ []) × (last_scale_up_ms F status' ≡ last_scale_up_ms F status))
      ⊎ ((actions ≡ action_of invoke_worker none ∷ [])
          × IsGap config (sub64 now (last_scale_up_ms F status))
          × (last_scale_up_ms F status' ≡ now))

  last-unchanged :
      (m : Map (Value F)) (status : ScalingAlgorithmStatus F)
      → lookup last_scale_up_key m ≡ field F status last_scale_up_key
      → last_scale_up_ms F (some m) ≡ last_scale_up_ms F status
  unfolding get_int64_from_map
  last-unchanged m status h = rw h

  last-written :
      (m : Map (Value F)) (now : ℤ)
      → last_scale_up_ms F (some (insert last_scale_up_key (int64 now) m)) ≡ now
  unfolding get_int64_from_map
  last-written m now = rw lookup-insert

  task_add-StepFacts :
      (config : ScalingAlgorithmConfig F) (status : ScalingAlgorithmStatus F) (now : ℤ)
      (r : SignalTaskAddRequest)
      → StepFacts config status now (step config status (task_add now r))
  unfolding process_task_add
  task_add-StepFacts config status now r = ground (
    arith,
    last-unchanged (clean_state F status) status
        (clean_state-lookup F last_scale_up_key status refl),
    last-written (clean_state F status) now,
  )

  wants_worker-IsGap :
      (config : ScalingAlgorithmConfig F) (elapsed : ℤ) (suppressed : Bool)
      (m : Option (QueueTypeScalingMetrics F))
      → wants_worker F config elapsed suppressed m ≡ true
      → IsGap config elapsed
  unfolding wants_worker
  wants_worker-IsGap config elapsed suppressed none h = cc
  wants_worker-IsGap config elapsed suppressed (some m) h = ground arith

  poll_queues-IsGap :
      (config : ScalingAlgorithmConfig F) (status : ScalingAlgorithmStatus F) (now : ℤ)
      (m : ScalingMetricsSnapshot F)
      → (poll_queues F config status now m).scale_up ≡ true
      → IsGap config (sub64 now (last_scale_up_ms F status))
  unfolding poll_queues poll_queue
  poll_queues-IsGap config status now m h = grind (arith, wants_worker-IsGap)

  poll-StepFacts :
      (config : ScalingAlgorithmConfig F) (status : ScalingAlgorithmStatus F) (now : ℤ)
      (m : ScalingMetricsSnapshot F)
      → StepFacts config status now (step config status (poll now m))
  unfolding process_metrics_poll
  poll-StepFacts config status now m =
      elim (Bool-cases (poll_queues F config status now m).scale_up) [
        | inl up ↦ rw up (
            inr (
              refl,
              poll_queues-IsGap config status now m up,
              last-written (poll_queues F config status now m).updated now,
            ))
        | inr down ↦ rw down (
            inl (
              refl,
              last-unchanged (poll_queues F config status now m).updated status (
                  poll_queues-other F last_scale_up_key config status now m refl (refl, refl, refl)
                    (refl, refl, refl) (refl, refl, refl)),
            ))
      ]

  step-StepFacts :
      (config : ScalingAlgorithmConfig F) (status : ScalingAlgorithmStatus F) (e : Event)
      → StepFacts config status (time_of e) (step config status e)
  step-StepFacts config status (task_add t r) = task_add-StepFacts config status t r
  step-StepFacts config status (poll t m) = poll-StepFacts config status t m

  -- Over any run of signals and polls, from any status: each single invocation of a worker, also
  -- within one step, comes at least the cooloff after the one before (the first, after the recorded
  -- one), or at least the lifetime of a worker after it where a lifetime is set. The clock may go
  -- backwards; the times are those of a clock after 1970.
  pub invocations-IsSpaced :
      (config : ScalingAlgorithmConfig F) (status : ScalingAlgorithmStatus F) (es : List Event)
      → IsTime (last_scale_up_ms F status)
      → All (λ e. IsTime (time_of e)) es
      → IsSpaced config (last_scale_up_ms F status) (invocations config status es)
  unfolding invocations
  invocations-IsSpaced config status [] l h = tt
  invocations-IsSpaced config status (e ∷ es) l (t, h) =
      let now = time_of e in
      let last = last_scale_up_ms F status in
      let after = (step config status e).1 in
      let rest = invocations config after es in
      elim (step-StepFacts config status e) [
        | inl (idle, same) ↦ rw idle (
            subst (λ x. IsSpaced config x rest) same
              (invocations-IsSpaced config after es (subst IsTime (sym same) l) h))
        | inr (invoked, gap, written) ↦ rw invoked (
          subst (IsGap config) (sub64_exact now last t.0 t.1 l.0 l.1) gap,
          subst (λ x. IsSpaced config x rest) written
              (invocations-IsSpaced config after es (subst IsTime (sym written) t) h),
        )
      ]
