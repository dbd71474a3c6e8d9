-- ===== src/Activities/TaskAdd.antt =====
-- wci/workflow/activities.go: HandleTaskAddSignal, for a task that found no poller.
use temporal_auto_scaled_wor.Prelude.{
  if◌then◌else◌, true, false, String, str_eq, eq_iff, Option, none, some, List, [], ◌∷◌, map, All,
  lookup, insert, lookup-insert, Float64, Result, ok, err, ◌>>=◌, ◌≡◌, ◌≢◌, refl, sym, ap, subst,
  ◌∙◌, Bool-cases, inl, inr,
}
use temporal_auto_scaled_wor.Iface.Types.{
  TaskQueueType, ScalingAlgorithmConfig, ScalingAlgorithmStatus, ScalingGroupSpec, Groups,
  SignalTaskAddRequest,
}
use temporal_auto_scaled_wor.Iface.Spec.{
  contains_type, effective_task_types_for_group, scaling_group_key_for_task_queue_type,
}
use temporal_auto_scaled_wor.Iface.Spec.Serving.{HasUniqueKeys, effective_iff_key}
use temporal_auto_scaled_wor.Scaling.Registry.{
  AlgorithmError, ScalingAlgorithm, ScalingAction, TaskAddResponse,
}
use temporal_auto_scaled_wor.Activities.{
  Activities, StatusMap, statuses_of, status_at, get_scaling_algorithm_and_config,
}
use temporal_auto_scaled_wor.Activities.PullStats.{is_deferred}

module _ (F : Float64) where
  pub record TaskAddActivityResponse : Type 0 where
    pub updated_scaling_status : StatusMap F
    pub actions : List ScalingAction

-- A deferred action carries the types of its group.
abbrev pub for_group : String → List TaskQueueType → ScalingAction → ScalingAction
for_group key ts x = record x {
  scaling_group_key = key;
  effective_task_types = if is_deferred x.action then some ts else x.effective_task_types;
}

module _ {P : Type 0} where
  -- An entry of a Go map, the zero value if there is none.
  abbrev pub entry_of : Option (ScalingGroupSpec P) → ScalingGroupSpec P
  entry_of (some g) = g
  entry_of none = record {
    task_types = [];
    region_ids = [];
    compute = record { provider_type = ""; config = none; nexus_endpoint = "" };
    scaling = none;
  }

module _ {F : Float64} where
  abbrev pub unchanged : StatusMap F → TaskAddActivityResponse F
  unchanged statuses = record { updated_scaling_status = some (statuses_of statuses); actions = [] }

  abbrev pub task_added :
      StatusMap F
      → String
      → List TaskQueueType
      → Result AlgorithmError (Option (TaskAddResponse F))
      → TaskAddActivityResponse F
  task_added statuses key ts (err e) = unchanged statuses
  task_added statuses key ts (ok none) = unchanged statuses
  task_added statuses key ts (ok (some x)) = record {
    updated_scaling_status = some (insert key x.status (statuses_of statuses));
    actions = map (for_group key ts) x.actions;
  }

module _ {F : Float64} {P : Type 0} where
  abbrev ask_task_add :
      Activities F P
      → SignalTaskAddRequest
      → String
      → ScalingAlgorithmStatus F
      → ScalingAlgorithm F × ScalingAlgorithmConfig F
      → Result AlgorithmError (Option (TaskAddResponse F))
  ask_task_add a r key status (g, c) = g.process_task_add (a.clock key) c status r

  abbrev pub task_add_answer :
      Activities F P
      → SignalTaskAddRequest
      → Groups P
      → StatusMap F
      → String
      → Result AlgorithmError (Option (TaskAddResponse F))
  task_add_answer a r groups statuses key =
      get_scaling_algorithm_and_config a (entry_of (lookup key groups))
      >>= ask_task_add a r key (status_at statuses key)

  abbrev pub add_task_to :
      Activities F P
      → SignalTaskAddRequest
      → Groups P
      → StatusMap F
      → String
      → TaskAddActivityResponse F
  add_task_to a r groups statuses key =
      if str_eq key ""
      then unchanged statuses
      else task_added statuses key (effective_task_types_for_group groups key a.region_id)
          (task_add_answer a r groups statuses key)

  unfoldable pub handle_task_add_signal :
      Activities F P
      → SignalTaskAddRequest
      → Option (Groups P)
      → StatusMap F
      → TaskAddActivityResponse F
  handle_task_add_signal a r none statuses = unchanged statuses
  handle_task_add_signal a r (some groups) statuses =
      add_task_to a r groups statuses
        (scaling_group_key_for_task_queue_type groups r.task_queue_type a.region_id)

-- An action for the group, whose types, if it is deferred, list the type of the task.
abbrev pub IsForTask : String → TaskQueueType → ScalingAction → Type 0
IsForTask key t x =
    (x.scaling_group_key ≡ key)
    × (is_deferred x.action ≡ true
        → (ts : List TaskQueueType) × (x.effective_task_types ≡ some ts)
          × (contains_type ts t ≡ true))

for_group-IsForTask :
    (key : String) (t : TaskQueueType) (ts : List TaskQueueType) (xs : List ScalingAction)
    → contains_type ts t ≡ true
    → All (IsForTask key t) (map (for_group key ts) xs)
for_group-IsForTask key t ts [] h = tt
for_group-IsForTask key t ts (x ∷ xs) h = (
  (refl, λ deferred. (ts, ap (λ b. if b then some ts else x.effective_task_types) deferred, h)),
  for_group-IsForTask key t ts xs h,
)

module _ {F : Float64} where
  -- The status that the algorithm answers for the group, the old one if it answers none.
  abbrev pub answered_status :
      Result AlgorithmError (Option (TaskAddResponse F))
      → ScalingAlgorithmStatus F
      → ScalingAlgorithmStatus F
  answered_status (err e) old = old
  answered_status (ok none) old = old
  answered_status (ok (some x)) old = x.status

  task_added-status :
      (statuses : StatusMap F) (key : String) (ts : List TaskQueueType)
      (r : Result AlgorithmError (Option (TaskAddResponse F))) (k : String)
      → status_at (task_added statuses key ts r).updated_scaling_status k ≡ (
          if str_eq key k then answered_status r (status_at statuses key) else status_at statuses k)
  task_added-status statuses key ts (err e) k = elim (Bool-cases (str_eq key k)) [
    | inl same ↦ rw (same, (eq_iff key k).0 same) refl
    | inr differ ↦ rw differ refl
  ]
  task_added-status statuses key ts (ok none) k = elim (Bool-cases (str_eq key k)) [
    | inl same ↦ rw (same, (eq_iff key k).0 same) refl
    | inr differ ↦ rw differ refl
  ]
  task_added-status statuses key ts (ok (some x)) k = elim (Bool-cases (str_eq key k)) [
    | inl same ↦ rw (lookup-insert key k x.status (statuses_of statuses), same) refl
    | inr differ ↦ rw (lookup-insert key k x.status (statuses_of statuses), differ) refl
  ]

  task_added-IsForTask :
      (statuses : StatusMap F) (key : String) (t : TaskQueueType) (ts : List TaskQueueType)
      (r : Result AlgorithmError (Option (TaskAddResponse F)))
      → contains_type ts t ≡ true
      → All (IsForTask key t) (task_added statuses key ts r).actions
  task_added-IsForTask statuses key t ts (err e) h = tt
  task_added-IsForTask statuses key t ts (ok none) h = tt
  task_added-IsForTask statuses key t ts (ok (some x)) h = for_group-IsForTask key t ts x.actions h

not_empty : (key : String) → key ≢ "" → str_eq key "" ≡ false
not_empty key named = elim (Bool-cases (str_eq key "")) [
  | inl same ↦ absurd (named ((eq_iff key "").0 same))
  | inr differ ↦ differ
]

module _ {F : Float64} {P : Type 0} where
  handled :
      (a : Activities F P) (r : SignalTaskAddRequest) (groups : Groups P) (statuses : StatusMap F)
      (key : String)
      → key ≢ ""
      → scaling_group_key_for_task_queue_type groups r.task_queue_type a.region_id ≡ key
      → handle_task_add_signal a r (some groups) statuses
        ≡ task_added statuses key
            (effective_task_types_for_group groups key a.region_id)
            (task_add_answer a r groups statuses key)
  unfolding handle_task_add_signal
  handled a r groups statuses key named h =
      ap (add_task_to a r groups statuses) h
      ∙ ap
          (λ b.
            if b
            then unchanged statuses
            else task_added statuses key (effective_task_types_for_group groups key a.region_id)
                (task_add_answer a r groups statuses key))
          (not_empty key named)

  -- A task of a type that a group serves here changes the status of that group only, to the one that
  -- its algorithm answers; and all actions are for that group, the deferred ones with types that list
  -- the type of the task, so that the deferred decision does not skip it.
  pub handle_task_add_signal-IsForTask :
      (a : Activities F P) (r : SignalTaskAddRequest) (groups : Groups P) (statuses : StatusMap F)
      (key : String)
      → HasUniqueKeys groups
      → key ≢ ""
      → scaling_group_key_for_task_queue_type groups r.task_queue_type a.region_id ≡ key
      → All
          (IsForTask key r.task_queue_type)
          (handle_task_add_signal a r (some groups) statuses).actions
        × ((k : String)
            → status_at (handle_task_add_signal a r (some groups) statuses).updated_scaling_status k
              ≡ (if str_eq key k
                  then answered_status
                      (task_add_answer a r groups statuses key)
                      (status_at statuses key)
                  else status_at statuses k))
  handle_task_add_signal-IsForTask a r groups statuses key u named h =
      let e = handled a r groups statuses key named h in
      let ts = effective_task_types_for_group groups key a.region_id in
      (
        subst (λ x. All (IsForTask key r.task_queue_type) x.actions) (sym e)
            (task_added-IsForTask statuses key r.task_queue_type ts
              (task_add_answer a r groups statuses key)
              ((effective_iff_key groups key a.region_id r.task_queue_type u named).1 h)),
        λ k.
            ap (λ x. status_at x.updated_scaling_status k) e
            ∙ task_added-status statuses key ts (task_add_answer a r groups statuses key) k,
      )
