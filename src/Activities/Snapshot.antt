-- ===== src/Activities/Snapshot.antt =====
-- wci/workflow/scaling_metrics_snapshot.go: the sums of the statistics of a version's task queues,
-- and the part of them that belongs to the task types of a group.
use temporal_auto_scaled_wor.Prelude.{
  pos, max_ℤ, add64, if◌then◌else◌, Bool, true, false, String, Option, none, some, List, [], ◌∷◌,
  keep_if, Float64, Result, ok, err, ◌≡◌, refl, ap, ◌∙◌, sym, arith, Bool-cases, inl, inr,
}
use temporal_auto_scaled_wor.Iface.Types.{
  TaskQueueType, unspecified, workflow, activity, nexus, type_eq, type_eq_sound,
  QueueTypeScalingMetrics,
}
use temporal_auto_scaled_wor.Iface.Spec.{contains_type}
use temporal_auto_scaled_wor.Scaling.Registry.{ScalingMetricsSnapshot}
use temporal_auto_scaled_wor.Activities.{
  TaskQueueStats, VersionTaskQueue, DescribeError, Activities,
}

module _ (F : Float64) where
  -- A sum of float32 values.
  abbrev add_float32 : F.Carrier → F.Carrier → F.Carrier
  add_float32 x y = F.to_float32 (F.add x y)

module _ {F : Float64} where
  unfoldable pub add_stats :
      TaskQueueStats F → QueueTypeScalingMetrics F → QueueTypeScalingMetrics F
  add_stats s m = record {
    last_backlog_count = add64 m.last_backlog_count s.approximate_backlog_count;
    last_arrival_rate = add_float32 F m.last_arrival_rate s.tasks_add_rate;
    last_processing_rate = add_float32 F m.last_processing_rate s.tasks_dispatch_rate;
    last_backlog_age = max_ℤ m.last_backlog_age s.approximate_backlog_age;
  }

  abbrev pub add_to :
      TaskQueueStats F → Option (QueueTypeScalingMetrics F) → Option (QueueTypeScalingMetrics F)
  add_to s none = none
  add_to s (some m) = some (add_stats s m)

  -- The `switch` on the type of a queue with statistics.
  abbrev pub add_by_type :
      TaskQueueType → TaskQueueStats F → ScalingMetricsSnapshot F → ScalingMetricsSnapshot F
  add_by_type workflow s m = record m { workflow = add_to s m.workflow }
  add_by_type activity s m = record m { activity = add_to s m.activity }
  add_by_type nexus s m = record m { nexus = add_to s m.nexus }
  add_by_type unspecified s m = m

  abbrev pub add_present :
      TaskQueueType
      → Option (TaskQueueStats F)
      → ScalingMetricsSnapshot F
      → ScalingMetricsSnapshot F
  add_present t none m = m
  add_present t (some s) m = add_by_type t s m

  abbrev pub add_queue :
      Option (VersionTaskQueue F) → ScalingMetricsSnapshot F → ScalingMetricsSnapshot F
  add_queue none m = m
  add_queue (some q) m = add_present q.type q.stats m

  unfoldable pub add_queues :
      List (Option (VersionTaskQueue F)) → ScalingMetricsSnapshot F → ScalingMetricsSnapshot F
  add_queues [] m = m
  add_queues (q ∷ qs) m = add_queues qs (add_queue q m)

  unfoldable pub filter_scaling_metrics_snapshot_by_task_types :
      List TaskQueueType → ScalingMetricsSnapshot F → ScalingMetricsSnapshot F
  filter_scaling_metrics_snapshot_by_task_types ts m = record {
    workflow = if contains_type ts workflow then m.workflow else none;
    activity = if contains_type ts activity then m.activity else none;
    nexus = if contains_type ts nexus then m.nexus else none;
  }

module _ (F : Float64) where
  abbrev pub no_metrics : QueueTypeScalingMetrics F
  no_metrics = record {
    last_backlog_count = pos 0;
    last_arrival_rate = F.decimal (pos 0) 0;
    last_processing_rate = F.decimal (pos 0) 0;
    last_backlog_age = pos 0;
  }

  abbrev pub no_queues : ScalingMetricsSnapshot F
  no_queues = record {
    workflow = some no_metrics;
    activity = some no_metrics;
    nexus = some no_metrics;
  }

module _ {F : Float64} where
  abbrev pub summed :
      Result DescribeError (Option (List (Option (VersionTaskQueue F))))
      → Result String (ScalingMetricsSnapshot F)
  summed (err e) = err e.text
  summed (ok none) = err "did not receive details in the describe response"
  summed (ok (some qs)) = ok (add_queues qs (no_queues F))

module _ {F : Float64} {P : Type 0} where
  unfoldable pub pull_scaling_metrics_snapshot :
      Activities F P → Result String (ScalingMetricsSnapshot F)
  pull_scaling_metrics_snapshot a = summed a.describe

module _ {F : Float64} where
  -- A sum over the queues of one type only.
  abbrev of_type :
      TaskQueueType
      → List (Option (VersionTaskQueue F))
      → Option (QueueTypeScalingMetrics F)
      → Option (QueueTypeScalingMetrics F)
  of_type t [] m = m
  of_type t (none ∷ qs) m = of_type t qs m
  of_type t (some q ∷ qs) m =
      of_type t qs (if type_eq q.type t then elim q.stats [ none ↦ m | some s ↦ add_to s m ] else m)

  -- The queues whose type is listed.
  abbrev pub is_relevant : List TaskQueueType → Option (VersionTaskQueue F) → Bool
  is_relevant ts none = false
  is_relevant ts (some q) = contains_type ts q.type

  abbrev IsSum :
      List (Option (VersionTaskQueue F))
      → ScalingMetricsSnapshot F
      → ScalingMetricsSnapshot F
      → Type 0
  IsSum qs m r =
      (r.workflow ≡ of_type workflow qs m.workflow)
      × (r.activity ≡ of_type activity qs m.activity)
      × (r.nexus ≡ of_type nexus qs m.nexus)

  one-IsSum :
      (t : TaskQueueType) (s : Option (TaskQueueStats F)) (name : String)
      (m : ScalingMetricsSnapshot F)
      → IsSum (some (record { name = name; type = t; stats = s }) ∷ []) m (add_present t s m)
  one-IsSum workflow none name m = (refl, refl, refl)
  one-IsSum activity none name m = (refl, refl, refl)
  one-IsSum nexus none name m = (refl, refl, refl)
  one-IsSum unspecified none name m = (refl, refl, refl)
  one-IsSum workflow (some s) name m = (refl, refl, refl)
  one-IsSum activity (some s) name m = (refl, refl, refl)
  one-IsSum nexus (some s) name m = (refl, refl, refl)
  one-IsSum unspecified (some s) name m = (refl, refl, refl)

  add_queues-IsSum :
      (qs : List (Option (VersionTaskQueue F))) (m : ScalingMetricsSnapshot F)
      → IsSum qs m (add_queues qs m)
  unfolding add_queues
  add_queues-IsSum [] m = (refl, refl, refl)
  add_queues-IsSum (none ∷ qs) m = add_queues-IsSum qs m
  add_queues-IsSum (some q ∷ qs) m =
      let rest = add_queues-IsSum qs (add_queue (some q) m) in
      let one = one-IsSum q.type q.stats q.name m in
      (
        rest.0 ∙ ap (of_type workflow qs) one.0,
        rest.1 ∙ ap (of_type activity qs) one.1,
        rest.2 ∙ ap (of_type nexus qs) one.2,
      )

  of_type-keep_if :
      (ts : List TaskQueueType) (t : TaskQueueType) (qs : List (Option (VersionTaskQueue F)))
      (m : Option (QueueTypeScalingMetrics F))
      → contains_type ts t ≡ true
      → of_type t (keep_if (is_relevant ts) qs) m ≡ of_type t qs m
  of_type-keep_if ts t [] m h = refl
  of_type-keep_if ts t (none ∷ qs) m h = of_type-keep_if ts t qs m h
  of_type-keep_if ts t (some q ∷ qs) m h = elim (Bool-cases (contains_type ts q.type)) [
    | inl listed ↦ rw listed (of_type-keep_if ts t qs _ h)
    | inr other ↦ elim (Bool-cases (type_eq q.type t)) [
      | inl same ↦
          absurd (ground (arith, h, other, ap (contains_type ts) (type_eq_sound q.type t same)))
      | inr differ ↦ rw (other, differ) (of_type-keep_if ts t qs m h)
    ]
  ]

  part :
      (listed : Bool) (a b : Option (QueueTypeScalingMetrics F))
      → (listed ≡ true → a ≡ b)
      → (if listed then a else none) ≡ (if listed then b else none)
  part true a b h = h refl
  part false a b h = refl

  parts :
      (a b : ScalingMetricsSnapshot F)
      → a.workflow ≡ b.workflow
      → a.activity ≡ b.activity
      → a.nexus ≡ b.nexus
      → a ≡ b
  parts a b w c n = λ i. record { workflow = w i; activity = c i; nexus = n i }

  -- What a group sees depends only on the queues of its task types: without the other queues of the
  -- version its part of the sums is the same.
  pub filter-add_queues :
      (ts : List TaskQueueType) (qs : List (Option (VersionTaskQueue F)))
      (m : ScalingMetricsSnapshot F)
      → filter_scaling_metrics_snapshot_by_task_types ts (add_queues qs m)
        ≡ filter_scaling_metrics_snapshot_by_task_types ts
            (add_queues (keep_if (is_relevant ts) qs) m)
  unfolding filter_scaling_metrics_snapshot_by_task_types
  filter-add_queues ts qs m =
      let whole = add_queues-IsSum qs m in
      let kept = add_queues-IsSum (keep_if (is_relevant ts) qs) m in
      parts (filter_scaling_metrics_snapshot_by_task_types ts (add_queues qs m))
        (filter_scaling_metrics_snapshot_by_task_types ts
          (add_queues (keep_if (is_relevant ts) qs) m))
        (part (contains_type ts workflow) _ _
          (λ h. whole.0 ∙ sym (kept.0 ∙ of_type-keep_if ts workflow qs _ h)))
        (part (contains_type ts activity) _ _
          (λ h. whole.1 ∙ sym (kept.1 ∙ of_type-keep_if ts activity qs _ h)))
        (part (contains_type ts nexus) _ _
          (λ h. whole.2 ∙ sym (kept.2 ∙ of_type-keep_if ts nexus qs _ h)))
