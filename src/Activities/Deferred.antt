-- ===== src/Activities/Deferred.antt =====
-- wci/workflow/activities.go: HandleDeferredScalingDecision.
use temporal_auto_scaled_wor.Prelude.{
  Bool, true, false, not, String, Option, none, some, List, [], ◌∷◌, map, keep_if, All, Float64,
  Result, ok, err, ◌≡◌, refl, sym, subst, Bool-cases, ◌⊎◌, inl, inr,
}
use temporal_auto_scaled_wor.Iface.Types.{
  TaskQueueType, ScalingAlgorithmConfig, ScalingAlgorithmStatus, ScalingGroupSpec,
  SignalTaskAddRequest,
}
use temporal_auto_scaled_wor.Iface.Spec.{contains_type}
use temporal_auto_scaled_wor.Scaling.Registry.{
  AlgorithmError, ScalingAlgorithm, ScalingAction, ScalingMetricsSnapshot, SnapshotAnswer,
  TaskAddResponse,
}
use temporal_auto_scaled_wor.Activities.{
  Activities, ActivityError, app_error, get_scaling_algorithm_and_config,
}
use temporal_auto_scaled_wor.Activities.Snapshot.{
  pull_scaling_metrics_snapshot, filter_scaling_metrics_snapshot_by_task_types,
}
use temporal_auto_scaled_wor.Activities.PullStats.{with_key, is_deferred}

module _ (F : Float64) (P : Type 0) where
  pub record DeferredRequest : Type 0 where
    pub request : SignalTaskAddRequest
    pub scaling_group_key : String
    pub scaling_group_spec : ScalingGroupSpec P
    pub effective_task_types : List TaskQueueType
    pub scaling_status : ScalingAlgorithmStatus F

module _ (F : Float64) where
  pub record DeferredResponse : Type 0 where
    pub updated_scaling_status : ScalingAlgorithmStatus F
    pub actions : List ScalingAction

module _ {F : Float64} where
  abbrev pub filtered :
      List TaskQueueType → Result String (ScalingMetricsSnapshot F) → SnapshotAnswer F
  filtered ts (err e) = err e
  filtered ts (ok s) = ok (some (filter_scaling_metrics_snapshot_by_task_types ts s))

  abbrev pub kept_status : ScalingAlgorithmStatus F → DeferredResponse F
  kept_status status = record { updated_scaling_status = status; actions = [] }

  -- A nested deferred action is dropped, and each other one gets the key.
  abbrev pub deferred_response_of :
      String
      → ScalingAlgorithmStatus F
      → Result AlgorithmError (Option (TaskAddResponse F))
      → Result ActivityError (DeferredResponse F)
  deferred_response_of key status (err e) = err (app_error "AlgorithmFailed" e)
  deferred_response_of key status (ok none) = ok (kept_status status)
  deferred_response_of key status (ok (some x)) = ok (record {
    updated_scaling_status = x.status;
    actions = map (with_key key) (keep_if (λ y. not (is_deferred y.action)) x.actions);
  })

  abbrev pub if_listed :
      Bool
      → ScalingAlgorithmStatus F
      → Result ActivityError (DeferredResponse F)
      → Result ActivityError (DeferredResponse F)
  if_listed false status answer = ok (kept_status status)
  if_listed true status answer = answer

module _ {F : Float64} {P : Type 0} where
  abbrev pub decided :
      Activities F P
      → DeferredRequest F P
      → Result AlgorithmError (ScalingAlgorithm F × ScalingAlgorithmConfig F)
      → Result ActivityError (DeferredResponse F)
  decided a q (err e) = ok (kept_status q.scaling_status)
  decided a q (ok (g, c)) = deferred_response_of q.scaling_group_key q.scaling_status (
      g.process_deferred_scaling_decision c q.scaling_status q.request
        (some (filtered q.effective_task_types (pull_scaling_metrics_snapshot a))))

  unfoldable pub handle_deferred_scaling_decision :
      Activities F P → DeferredRequest F P → Result ActivityError (DeferredResponse F)
  handle_deferred_scaling_decision a q =
      if_listed (contains_type q.effective_task_types q.request.task_queue_type) q.scaling_status
        (decided a q (get_scaling_algorithm_and_config a q.scaling_group_spec))

-- An action for the group, which is not deferred.
abbrev pub IsImmediate : String → ScalingAction → Type 0
IsImmediate key x = (x.scaling_group_key ≡ key) × (is_deferred x.action ≡ false)

map-IsImmediate :
    (key : String) (xs : List ScalingAction)
    → All (IsImmediate key) (map (with_key key) (keep_if (λ y. not (is_deferred y.action)) xs))
map-IsImmediate key [] = tt
map-IsImmediate key (x ∷ xs) = elim (Bool-cases (is_deferred x.action)) [
  | inl deferred ↦ rw deferred (map-IsImmediate key xs)
  | inr plain ↦ rw plain ((refl, plain), map-IsImmediate key xs)
]

module _ {F : Float64} {P : Type 0} where
  -- An answer's actions are immediate; there are none, and the status is kept, if the type of the
  -- task is not listed; and an error is of the type AlgorithmFailed.
  abbrev pub IsDeferredAnswer :
      DeferredRequest F P → Result ActivityError (DeferredResponse F) → Type 0
  IsDeferredAnswer q (err e) =
      (contains_type q.effective_task_types q.request.task_queue_type ≡ true)
      × (text : String) × (e ≡ app_error "AlgorithmFailed" text)
  IsDeferredAnswer q (ok x) =
      All (IsImmediate q.scaling_group_key) x.actions
      × ((contains_type q.effective_task_types q.request.task_queue_type ≡ true)
          ⊎ ((x.actions ≡ []) × (x.updated_scaling_status ≡ q.scaling_status)))

  response-IsDeferredAnswer :
      (q : DeferredRequest F P) (r : Result AlgorithmError (Option (TaskAddResponse F)))
      → contains_type q.effective_task_types q.request.task_queue_type ≡ true
      → IsDeferredAnswer q (deferred_response_of q.scaling_group_key q.scaling_status r)
  response-IsDeferredAnswer q (err e) listed = (listed, e, refl)
  response-IsDeferredAnswer q (ok none) listed = (tt, inl listed)
  response-IsDeferredAnswer q (ok (some x)) listed =
      (map-IsImmediate q.scaling_group_key x.actions, inl listed)

  decided-IsDeferredAnswer :
      (a : Activities F P) (q : DeferredRequest F P)
      (g : Result AlgorithmError (ScalingAlgorithm F × ScalingAlgorithmConfig F))
      → contains_type q.effective_task_types q.request.task_queue_type ≡ true
      → IsDeferredAnswer q (decided a q g)
  decided-IsDeferredAnswer a q (err e) listed = (tt, inl listed)
  decided-IsDeferredAnswer a q (ok (g, c)) listed = response-IsDeferredAnswer q _ listed

  -- Whatever the algorithm answers, a deferred decision leads to no further deferred decision, and
  -- to actions for its own group only; for a task whose type is not listed there are none and the
  -- status is kept; and an error of the activity is a failure of the algorithm.
  pub handle_deferred_scaling_decision-IsDeferredAnswer :
      (a : Activities F P) (q : DeferredRequest F P)
      → IsDeferredAnswer q (handle_deferred_scaling_decision a q)
  unfolding handle_deferred_scaling_decision
  handle_deferred_scaling_decision-IsDeferredAnswer a q =
      elim (Bool-cases (contains_type q.effective_task_types q.request.task_queue_type)) [
        | inl listed ↦
            subst
              (λ b. IsDeferredAnswer q (
                if_listed b q.scaling_status
                  (decided a q (get_scaling_algorithm_and_config a q.scaling_group_spec))))
              (sym listed)
              (decided-IsDeferredAnswer a q
                (get_scaling_algorithm_and_config a q.scaling_group_spec) listed)
        | inr other ↦
            subst
              (λ b. IsDeferredAnswer q (
                if_listed b q.scaling_status
                  (decided a q (get_scaling_algorithm_and_config a q.scaling_group_spec))))
              (sym other) (tt, inr (refl, refl))
      ]
