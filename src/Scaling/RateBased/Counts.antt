-- ===== src/Scaling/RateBased/Counts.antt =====
-- rate_based.go: how far the planned count moves from one operation to the next.
use temporal_auto_scaled_wor.Prelude.{
  ℤ, pos, ◌≤ℤ◌, ◌<ℤ◌, ◌+ℤ◌, int_laws, ltb_ℤ, leb_ℤ, eq_ℤ, max_ℤ, min_ℤ, add32, sub64, ◌&&◌, some,
  List, [], ◌∷◌, Map, lookup, insert, lookup-insert, Float64, FloatLaws, ◌≡◌, inl, inr, refl, subst,
  ◌∙◌, arith, Bool-cases,
}
use temporal_auto_scaled_wor.Iface.Types.{
  SignalTaskAddRequest, Value, int64, ScalingAlgorithmConfig, ScalingAlgorithmStatus,
}
use temporal_auto_scaled_wor.Scaling.Registry.{ScalingAction, ScalingMetricsSnapshot}
use temporal_auto_scaled_wor.Scaling.RateBased.{
  worker_count_key, last_up_key, last_down_key, last_no_sync_key, max_int32, min_count, max_count,
  max_step, up_cooldown_ms, clean_state, aggregate,
}
use temporal_auto_scaled_wor.Scaling.RateBased.Decisions.{
  task_queue_registration_actions, process_task_add, time_at, resize, current_count, counted_state,
  measured_state, process_metrics_poll,
}
use temporal_auto_scaled_wor.Scaling.RateBased.State.{measured_state-kept, current_count-written}
use temporal_auto_scaled_wor.Scaling.RateBased.Config.{IsBounded}
use temporal_auto_scaled_wor.Scaling.RateBased.Bounds.{
  IsCount, add32_exact, IsDecision, current_count-IsCount, process_metrics_poll-IsDecision,
}

module _ (F : Float64) where
  up_written :
      (m : Map (Value F)) (now n : ℤ)
      → lookup worker_count_key
          (insert last_up_key (int64 now) (insert worker_count_key (int64 n) m))
        ≡ some (int64 n)
  up_written m now n = simp lookup-insert

  down_written :
      (m : Map (Value F)) (now n : ℤ)
      → lookup worker_count_key
          (insert last_down_key (int64 now) (insert worker_count_key (int64 n) m))
        ≡ some (int64 n)
  down_written m now n = simp lookup-insert

  -- The next count after a decision.
  IsDecision-count :
      (now : ℤ) (config : ScalingAlgorithmConfig F) (count desired : ℤ) (m : Map (Value F))
      (d : List ScalingAction × Map (Value F))
      → IsBounded F config
      → IsCount count
      → lookup worker_count_key m ≡ some (int64 count)
      → IsDecision F now config count desired m d
      → let next = current_count F config (some d.1) in
        (count ≤ℤ next +ℤ pos 1)
        × (next ≤ℤ count +ℤ max_step F config)
        × (min_count F config ≤ℤ count → min_count F config ≤ℤ next)
        × (count ≤ℤ max_count F config → next ≤ℤ max_count F config)
  IsDecision-count now config count desired m d b c h (inl e) =
      rw (e, current_count-written F config m count h c.0 c.1)
        (omega (int_laws, b), omega (int_laws, b), λ x. x, λ x. x)
  IsDecision-count now config count desired m d b c h (inr (inl (n, e, up, u, v, w, t))) =
      rw
        (
          e,
          current_count-written F config _ n (up_written m now n) (omega (arith, c, up))
              (omega (arith, b, v)),
        )
        (omega (int_laws, up), w, λ x. omega (arith, x, up), λ x. v)
  IsDecision-count now config count desired m d b c h (inr (inr (n, e, down, u, v, w, t))) =
      rw
        (
          e,
          current_count-written F config _ n (down_written m now n) (omega (arith, b, v))
              (step_down n down),
        )
        (
          subst (λ x. x ≤ℤ n +ℤ pos 1) down (omega int_laws),
          below_step n down,
          λ x. v,
          λ x. omega (arith, x, n_lt_count n down),
        )
    where
      n_lt_count : (n : ℤ) → n +ℤ pos 1 ≡ count → n ≤ℤ count
      n_lt_count n e = subst (λ x. n ≤ℤ x) e (omega int_laws)

      step_down : (n : ℤ) → n +ℤ pos 1 ≡ count → n ≤ℤ max_int32
      step_down n e = omega (arith, n_lt_count n e, c)

      below_step : (n : ℤ) → n +ℤ pos 1 ≡ count → n ≤ℤ count +ℤ max_step F config
      below_step n e = omega (int_laws, n_lt_count n e, b)

  counted_state-count :
      (config : ScalingAlgorithmConfig F) (prior : ScalingAlgorithmStatus F)
      → lookup worker_count_key (counted_state F config prior)
        ≡ some (int64 (current_count F config prior))
  unfolding counted_state
  counted_state-count config prior = simp lookup-insert

  -- Under a valid configuration a poll moves the planned count by one worker down at most and by
  -- the configured step up at most, and a count within a bound of the configuration stays within
  -- that bound; the planned count is the one the next operation reads back from the status.
  pub process_metrics_poll-current_count :
      (laws : FloatLaws F) (now : ℤ) (config : ScalingAlgorithmConfig F)
      (prior : ScalingAlgorithmStatus F) (snapshot : ScalingMetricsSnapshot F)
      → IsBounded F config
      → let count = current_count F config prior in
        let next =
          current_count F config (process_metrics_poll F now config prior snapshot).status in
        (count ≤ℤ next +ℤ pos 1)
        × (next ≤ℤ count +ℤ max_step F config)
        × (min_count F config ≤ℤ count → min_count F config ≤ℤ next)
        × (count ≤ℤ max_count F config → next ≤ℤ max_count F config)
  process_metrics_poll-current_count laws now config prior snapshot b =
      let a = aggregate F (some snapshot) in
      let r = process_metrics_poll-IsDecision F laws now config prior snapshot b in
      rw r.1 (
        IsDecision-count now config (current_count F config prior) _
          (measured_state F config prior a) (_, r.0) b (current_count-IsCount F laws config prior b)
          (measured_state-kept F worker_count_key config prior a (refl, refl, refl)
            ∙ counted_state-count config prior)
          r.2)

  abbrev IsNext : ScalingAlgorithmConfig F → ℤ → Map (Value F) → Type 0
  IsNext config count m =
      let next = current_count F config (some m) in
      (count ≤ℤ next)
      × (next ≤ℤ count +ℤ pos 1)
      × (count ≤ℤ max_count F config → next ≤ℤ max_count F config)

  -- A state with the count as it was, or one more under the maximum.
  same-IsNext :
      (config : ScalingAlgorithmConfig F) (count : ℤ) (m : Map (Value F))
      → IsCount count
      → lookup worker_count_key m ≡ some (int64 count)
      → IsNext config count m
  same-IsNext config count m c h =
      rw (current_count-written F config m count h c.0 c.1) (omega arith, omega int_laws, λ x. x)

  more-IsNext :
      (config : ScalingAlgorithmConfig F) (count : ℤ) (m : Map (Value F))
      → IsBounded F config
      → IsCount count
      → count <ℤ max_count F config
      → lookup worker_count_key m ≡ some (int64 (add32 count (pos 1)))
      → IsNext config count m
  more-IsNext config count m b c low h =
      let e = add32_exact count (pos 1) (omega (int_laws, c, low, b)) in
      rw
        (
          current_count-written F config m (add32 count (pos 1)) h (rw e (omega (int_laws, c)))
              (rw e (omega (int_laws, low, b))),
          e,
        )
        (omega int_laws, omega int_laws, λ x. omega (int_laws, low))

  bumped_count :
      (config : ScalingAlgorithmConfig F) (prior : ScalingAlgorithmStatus F) (now : ℤ)
      → lookup worker_count_key (insert last_no_sync_key (int64 now) (counted_state F config prior))
        ≡ some (int64 (current_count F config prior))
  unfolding counted_state
  bumped_count config prior now = simp lookup-insert

  raised_count :
      (m : Map (Value F)) (now n : ℤ)
      → lookup worker_count_key
          (insert last_up_key (int64 now) (insert worker_count_key (int64 n) m))
        ≡ some (int64 n)
  raised_count m now n = simp lookup-insert

  -- Under a valid configuration a task-add signal keeps the planned count or raises it by one, and
  -- never takes it above the configured maximum; the planned count is the one that the next
  -- operation reads back from the status.
  pub process_task_add-current_count :
      (laws : FloatLaws F) (now : ℤ) (config : ScalingAlgorithmConfig F)
      (prior : ScalingAlgorithmStatus F) (request : SignalTaskAddRequest)
      → IsBounded F config
      → let count = current_count F config prior in
        let next = current_count F config (process_task_add F now config prior request).status in
        (count ≤ℤ next)
        × (next ≤ℤ count +ℤ pos 1)
        × (count ≤ℤ max_count F config → next ≤ℤ max_count F config)
  unfolding process_task_add
  process_task_add-current_count laws now config prior request b =
      let count = current_count F config prior in
      let c = current_count-IsCount F laws config prior b in
      let bumped = insert last_no_sync_key (int64 now) (counted_state F config prior) in
      let kept = same-IsNext config count bumped c (bumped_count config prior now) in
      elim (Bool-cases
        (request.is_sync_match && eq_ℤ request.no_sync_match_signals_since_last (pos 0))) [
          | inl matched ↦ rw matched (
              same-IsNext config count (counted_state F config prior) c
                (counted_state-count config prior))
          | inr missed ↦ elim (Bool-cases (leb_ℤ (max_count F config) count)) [
            | inl full ↦ rw (missed, full) kept
            | inr room ↦
                elim (Bool-cases
                  (ltb_ℤ (sub64 now (time_at F bumped last_up_key)) (up_cooldown_ms F config))) [
                    | inl hot ↦ rw (missed, room, hot) kept
                    | inr cool ↦
                        rw (missed, room, cool)
                          (more-IsNext config count _ b c (ground arith)
                            (raised_count bumped now (add32 count (pos 1))))
                  ]
          ]
        ]

  written_count :
      (m : Map (Value F)) (n : ℤ)
      → lookup worker_count_key (insert worker_count_key (int64 n) m) ≡ some (int64 n)
  written_count m n = simp lookup-insert

  -- The size at which a worker set comes up to register its task queues.
  abbrev registered_size : ScalingAlgorithmConfig F → ScalingAlgorithmStatus F → ℤ
  registered_size config status =
      max_ℤ (pos 1)
        (min_ℤ (max_ℤ (current_count F config status) (min_count F config)) (max_count F config))

  clamped :
      (n low high : ℤ)
      → (pos 1 ≤ℤ max_ℤ (pos 1) (min_ℤ (max_ℤ n low) high))
        × (max_ℤ (pos 1) (min_ℤ (max_ℤ n low) high) ≤ℤ max_ℤ (pos 1) high)
  clamped n low high = ground arith

  one_or : (n : ℤ) → n ≤ℤ max_int32 → max_ℤ (pos 1) n ≤ℤ max_int32
  one_or n h = ground arith

  -- Under a valid configuration the registration of task queues asks for one worker at least, and
  -- for no more than the configured maximum or one; the next operation reads the size asked for as
  -- the planned count.
  pub task_queue_registration_actions-current_count :
      (config : ScalingAlgorithmConfig F) (status : ScalingAlgorithmStatus F)
      → IsBounded F config
      → let response = task_queue_registration_actions F config status in
        let next = current_count F config response.status in
        (response.actions ≡ resize F next ∷ [])
        × (pos 1 ≤ℤ next)
        × (next ≤ℤ max_ℤ (pos 1) (max_count F config))
  unfolding task_queue_registration_actions
  task_queue_registration_actions-current_count config status b =
      let size = registered_size config status in
      let within =
        clamped (current_count F config status) (min_count F config) (max_count F config) in
      rw
        (current_count-written F config _ size (written_count (clean_state F status) size)
          (omega (arith, within)) (omega (arith, within, one_or (max_count F config) b.max_int)))
        (refl, within.0, within.1)
