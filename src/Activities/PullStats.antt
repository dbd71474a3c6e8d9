-- ===== src/Activities/PullStats.antt =====
-- wci/workflow/activities.go: PullStats, which polls the statistics and asks each group's algorithm.
pub mod NextPoll
pub mod Statuses
pub mod Actions
use temporal_auto_scaled_wor.Prelude.{
  ℕ, ℤ, pos, negsuc, ◌/◌, max_ℤ, min_ℤ, if◌then◌else◌, Bool, true, false, not, String, Option, none,
  some, List, [], ◌∷◌, ◌++◌, map, keep_if, is_empty, Map, insert, Float64, Result, ok, err, ◌>>=◌,
  ◌≡◌, ap, ◌∙◌,
}
use temporal_auto_scaled_wor.Iface.Types.{
  TaskQueueType, ScalingAlgorithmConfig, ScalingAlgorithmStatus, ScalingGroupSpec, Groups,
}
use temporal_auto_scaled_wor.Iface.Spec.{effective_task_types_for_group}
use temporal_auto_scaled_wor.Scaling.Registry.{
  AlgorithmError, ScalingAlgorithm, ActionType, invoke_worker, update_worker_set_size,
  deferred_scaling_decision, unknown_action, ScalingAction, ScalingMetricsSnapshot,
  MetricsPollResponse,
}
use temporal_auto_scaled_wor.Activities.{
  Activities, ActivityError, app_error, other_error, StatusMap, status_at,
  get_scaling_algorithm_and_config,
}
use temporal_auto_scaled_wor.Activities.Snapshot.{
  pull_scaling_metrics_snapshot, filter_scaling_metrics_snapshot_by_task_types,
}

-- In nanoseconds.
abbrev pub min_poll_interval : ℤ
min_poll_interval = pos 30000000000

abbrev pub max_poll_interval : ℤ
max_poll_interval = pos 300000000000

-- uint32(d.Seconds()) of a duration that is not negative.
abbrev pub seconds : ℤ → ℕ
seconds (pos n) = n / 1000000000
seconds (negsuc n) = 0

abbrev pub with_key : String → ScalingAction → ScalingAction
with_key key x = record x { scaling_group_key = key }

abbrev pub is_deferred : ActionType → Bool
is_deferred deferred_scaling_decision = true
is_deferred invoke_worker = false
is_deferred update_worker_set_size = false
is_deferred (unknown_action s) = false

abbrev pub sooner : ℤ → Option ℤ → ℤ
sooner next none = next
sooner next (some p) = max_ℤ min_poll_interval (min_ℤ next p)

module _ (F : Float64) where
  pub record PullStatsResponse : Type 0 where
    pub actions : List ScalingAction
    pub updated_scaling_status : StatusMap F
    pub next_poll_seconds : ℕ

  -- What the loop over the groups carries.
  pub record PollRound : Type 0 where
    pub actions : List ScalingAction
    pub statuses : Map (ScalingAlgorithmStatus F)
    pub next_poll : ℤ

abbrev pub GroupAnswer : Float64 → Type 0
GroupAnswer F = Result AlgorithmError (MetricsPollResponse F)

abbrev pub start : (F : Float64) → PollRound F
start F = record { actions = []; statuses = []; next_poll = max_poll_interval }

module _ {F : Float64} where
  -- A nil status is not stored.
  abbrev pub insert_present :
      String
      → ScalingAlgorithmStatus F
      → Map (ScalingAlgorithmStatus F)
      → Map (ScalingAlgorithmStatus F)
  insert_present key none m = m
  insert_present key (some s) m = insert key (some s) m

  abbrev pub after_inactive :
      String → ScalingAlgorithmStatus F → GroupAnswer F → PollRound F → PollRound F
  after_inactive key old (err e) r = record r { statuses = insert key old r.statuses }
  after_inactive key old (ok x) r = record r {
    statuses = insert_present key x.status r.statuses;
    actions = r.actions ++ map (with_key key) x.actions;
  }

  abbrev pub after_active :
      String → ScalingAlgorithmStatus F → GroupAnswer F → PollRound F → PollRound F
  after_active key old (err e) r = record r { statuses = insert key old r.statuses }
  after_active key old (ok x) r = record {
    actions = r.actions ++ map (with_key key) (keep_if (λ y. not (is_deferred y.action)) x.actions);
    statuses = insert key x.status r.statuses;
    next_poll = sooner r.next_poll x.next_poll;
  }

  abbrev ask_inactive_of :
      ScalingAlgorithmStatus F → ScalingAlgorithm F × ScalingAlgorithmConfig F → GroupAnswer F
  ask_inactive_of old (g, c) = g.inactive_group_actions c old

  abbrev ask_active_of :
      ℤ
      → ScalingAlgorithmStatus F
      → ScalingMetricsSnapshot F
      → ScalingAlgorithm F × ScalingAlgorithmConfig F
      → GroupAnswer F
  ask_active_of now old s (g, c) = g.process_metrics_poll now c old s

  abbrev pub response_of : PollRound F → PullStatsResponse F
  response_of r = record {
    actions = r.actions;
    updated_scaling_status = some r.statuses;
    next_poll_seconds = seconds r.next_poll;
  }

  -- A disabled controller keeps the statuses.
  abbrev pub if_enabled :
      Bool
      → StatusMap F
      → Result ActivityError (PullStatsResponse F)
      → Result ActivityError (PullStatsResponse F)
  if_enabled false statuses answer = ok (record {
    actions = [];
    updated_scaling_status = statuses;
    next_poll_seconds = seconds max_poll_interval;
  })
  if_enabled true statuses answer = answer

module _ {F : Float64} {P : Type 0} where
  unfoldable pub ask_inactive :
      Activities F P → ScalingAlgorithmStatus F → ScalingGroupSpec P → GroupAnswer F
  ask_inactive a old entry = get_scaling_algorithm_and_config a entry >>= ask_inactive_of old

  unfoldable pub ask_active :
      Activities F P
      → String
      → ScalingAlgorithmStatus F
      → ScalingMetricsSnapshot F
      → ScalingGroupSpec P
      → GroupAnswer F
  ask_active a key old s entry =
      get_scaling_algorithm_and_config a entry >>= ask_active_of (a.clock key) old s

  -- One round of the loop, for a group with its effective task types.
  abbrev pub poll_with :
      Activities F P
      → StatusMap F
      → ScalingMetricsSnapshot F
      → List TaskQueueType
      → String × ScalingGroupSpec P
      → PollRound F
      → PollRound F
  poll_with a statuses s [] (key, entry) r =
      after_inactive key (status_at statuses key) (ask_inactive a (status_at statuses key) entry) r
  poll_with a statuses s (t ∷ ts) (key, entry) r =
      after_active key (status_at statuses key)
        (ask_active a key (status_at statuses key)
          (filter_scaling_metrics_snapshot_by_task_types (t ∷ ts) s) entry)
        r

  unfoldable pub poll_group :
      Activities F P
      → Groups P
      → StatusMap F
      → ScalingMetricsSnapshot F
      → String × ScalingGroupSpec P
      → PollRound F
      → PollRound F
  poll_group a groups statuses s (key, entry) r =
      poll_with a statuses s (effective_task_types_for_group groups key a.region_id) (key, entry) r

  unfoldable pub poll_groups :
      Activities F P
      → Groups P
      → StatusMap F
      → ScalingMetricsSnapshot F
      → Groups P
      → PollRound F
      → PollRound F
  poll_groups a groups statuses s [] r = r
  poll_groups a groups statuses s (entry ∷ rest) r =
      poll_groups a groups statuses s rest (poll_group a groups statuses s entry r)

  abbrev pub pulled :
      Activities F P
      → Groups P
      → StatusMap F
      → Result String (ScalingMetricsSnapshot F)
      → Result ActivityError (PullStatsResponse F)
  pulled a groups statuses (err e) = err (app_error "PullScalingMetricsSnapshotFailed" e)
  pulled a groups statuses (ok s) =
      ok (response_of (poll_groups a groups statuses s groups (start F)))

  unfoldable pub pull_stats :
      Activities F P → Option (Groups P) → StatusMap F → Result ActivityError (PullStatsResponse F)
  pull_stats a none statuses = err (other_error "Invalid activity request")
  pull_stats a (some groups) statuses =
      if_enabled a.controller_enabled statuses
        (pulled a groups statuses (pull_scaling_metrics_snapshot a))

  pub pull_stats_enabled :
      (a : Activities F P) (groups : Groups P) (statuses : StatusMap F)
      (s : ScalingMetricsSnapshot F)
      → a.controller_enabled ≡ true
      → pull_scaling_metrics_snapshot a ≡ ok s
      → pull_stats a (some groups) statuses
        ≡ ok (response_of (poll_groups a groups statuses s groups (start F)))
  unfolding pull_stats
  pull_stats_enabled a groups statuses s on answer =
      ap (λ b. if_enabled b statuses (pulled a groups statuses (pull_scaling_metrics_snapshot a)))
        on
      ∙ ap (pulled a groups statuses) answer
