-- ===== src/Tests/Activities.antt =====
-- activities.go, scaling_metrics_snapshot.go, no_sync_match.go and rate_based.go: the theorems at a
-- concrete process, with a lambda group and a worker set.
use mathlib.Core.List.{Memᴰ}
use temporal_auto_scaled_wor.Prelude.{
  ℕ, pos, max_ℤ, ◌≤◌, String, none, some, Option, List, [], ◌∷◌, All, Map, lookup, insert, ok, true,
  false≢true, eq_iff, ◌≡◌, refl, if◌then◌else◌, str_eq,
}
use temporal_auto_scaled_wor.Iface.Types.{
  Value, int64, workflow, activity, nexus, TaskQueueType, ScalingAlgorithmSpec, ScalingGroupSpec,
  Groups,
}
use temporal_auto_scaled_wor.Iface.MapAccess.{
  validate_int64_in_map, int64_error, validate_float64_in_map, float64_error, get_int64_from_map,
  get_float64_from_map, int64_or, float64_or,
}
use temporal_auto_scaled_wor.Iface.Spec.{
  scaling_group_key_for_task_queue_type, claimed_group, claim_rank,
}
use temporal_auto_scaled_wor.ComputeProvider.{
  ComputeProvider, worker_set, invoke, get_compute_provider,
}
use temporal_auto_scaled_wor.Scaling.Registry.{
  register_scaling_algorithm, add_defaults, get_scaling_algorithm, ScalingMetricsSnapshot,
}
use temporal_auto_scaled_wor.Scaling.Registry.First.{Registration}
use temporal_auto_scaled_wor.Scaling.Program.{no_sync, rate_based, program_registry}
use temporal_auto_scaled_wor.Scaling.RateBased.Config as RateConfig
use temporal_auto_scaled_wor.Activities.{Activities, VersionTaskQueue, status_at}
use temporal_auto_scaled_wor.Activities.Snapshot.{
  add_queues, no_queues, filter_scaling_metrics_snapshot_by_task_types, filter-add_queues,
  pull_scaling_metrics_snapshot,
}
use temporal_auto_scaled_wor.Activities.PullStats.{
  PullStatsResponse, min_poll_interval, max_poll_interval, seconds, response_of, poll_groups, start,
  pull_stats_enabled,
}
use temporal_auto_scaled_wor.Activities.PullStats.NextPoll.{least, asked, pull_stats-next_poll}
use temporal_auto_scaled_wor.Activities.PullStats.Statuses.{
  HasDistinctKeys, expected, pull_stats-status_at,
}
use temporal_auto_scaled_wor.Activities.PullStats.Actions.{IsAllowed, pull_stats-IsAllowed}
use temporal_auto_scaled_wor.Activities.TaskAdd.{
  IsForTask, answered_status, task_add_answer, handle_task_add_signal,
  handle_task_add_signal-IsForTask,
}
use temporal_auto_scaled_wor.Activities.Deferred.{
  DeferredRequest, IsDeferredAnswer, handle_deferred_scaling_decision,
  handle_deferred_scaling_decision-IsDeferredAnswer,
}
use temporal_auto_scaled_wor.Activities.ValidateSpec.{
  validate_spec, check_entries, check_entry, check_scaling, find_provider,
}
use temporal_auto_scaled_wor.Activities.ValidateSpec.Ready.{IsReady, validate_spec-IsReady}
use temporal_auto_scaled_wor.Activities.Program.{IsConfigured, validate_spec-IsConfigured}
use temporal_auto_scaled_wor.Tests.Decimal.{Decimals}
use temporal_auto_scaled_wor.Tests.Scalers.{missed}
use temporal_auto_scaled_wor.Tests.Specs.{two_groups, two_unique}

-- The second registration of a type, and the second of a provider, have no effect.
abbrev three_registrations : List (Registration Decimals)
three_registrations =
    record { type_name = "no-sync"; constructor = ok (no_sync Decimals); providers = "k8s" ∷ [] }
    ∷ record {
      type_name = "no-sync";
      constructor = ok (rate_based Decimals);
      providers = "aws-ecs" ∷ [];
    }
    ∷ record {
      type_name = "rate-based";
      constructor = ok (rate_based Decimals);
      providers = "k8s" ∷ [];
    }
    ∷ []

-- A process with the program's algorithms.
abbrev cloud : ComputeProvider Decimals
cloud = record {
  launch_strategy = worker_set;
  validate_config = λ c. none;
  invoke_worker = λ c. none;
  update_worker_set_size = λ c n. none;
}

abbrev lambda : ComputeProvider Decimals
lambda = record {
  launch_strategy = invoke;
  validate_config = λ c. none;
  invoke_worker = λ c. none;
  update_worker_set_size = λ c n. none;
}

abbrev queue_of : TaskQueueType → ℕ → VersionTaskQueue Decimals
queue_of t backlog = record {
  name = "q";
  type = t;
  stats = some (record {
    approximate_backlog_count = pos backlog;
    tasks_add_rate = some (pos 1000);
    tasks_dispatch_rate = some (pos 2000);
    approximate_backlog_age = pos 0;
  });
}

abbrev queues : List (Option (VersionTaskQueue Decimals))
queues = some (queue_of workflow 3) ∷ none ∷ some (queue_of activity 7) ∷ []

abbrev small : Map (Value Decimals)
small = ("max_count", int64 (pos 3)) ∷ []

abbrev pub process : Activities Decimals ℕ
process = record {
  controller_enabled = true;
  region_id = "us";
  registry = program_registry Decimals;
  enabled_algorithms = none;
  providers = ("k8s", ok cloud) ∷ ("aws-lambda", ok lambda) ∷ [];
  enabled_providers = "k8s" ∷ "aws-lambda" ∷ [];
  decode = λ p. ok (some small);
  describe = ok (some queues);
  clock = λ key. pos 1000000;
}

abbrev pool_scaling : ScalingAlgorithmSpec ℕ
pool_scaling = record { scaling_algorithm = "rate-based"; config = some 1 }

-- Workflows run in a worker set, and all else in a lambda with the default algorithm.
abbrev pub pool : ScalingGroupSpec ℕ
pool = record {
  task_types = workflow ∷ [];
  region_ids = [];
  compute = record { provider_type = "k8s"; config = none; nexus_endpoint = "" };
  scaling = some pool_scaling;
}

abbrev pub function : ScalingGroupSpec ℕ
function = record {
  task_types = [];
  region_ids = [];
  compute = record { provider_type = "aws-lambda"; config = none; nexus_endpoint = "" };
  scaling = none;
}

abbrev pub groups : Groups ℕ
groups = ("pool", pool) ∷ ("function", function) ∷ []

filter-add_queues_example :
    filter_scaling_metrics_snapshot_by_task_types
      (activity ∷ nexus ∷ [])
      (add_queues queues (no_queues Decimals))
    ≡ filter_scaling_metrics_snapshot_by_task_types
        (activity ∷ nexus ∷ [])
        (add_queues (some (queue_of activity 7) ∷ []) (no_queues Decimals))
filter-add_queues_example = filter-add_queues (activity ∷ nexus ∷ []) queues (no_queues Decimals)

abbrev sums : ScalingMetricsSnapshot Decimals
sums = add_queues queues (no_queues Decimals)

sums_pulled : pull_scaling_metrics_snapshot process ≡ ok sums
unfolding pull_scaling_metrics_snapshot
sums_pulled = refl

abbrev polled : PullStatsResponse Decimals
polled = response_of (poll_groups process groups none sums groups (start Decimals))

pull_stats-next_poll_example :
    (30 ≤ polled.next_poll_seconds)
    × (polled.next_poll_seconds ≤ 300)
    × (polled.next_poll_seconds
        ≡ seconds (
            max_ℤ min_poll_interval
              (least max_poll_interval (asked process groups none sums groups))))
pull_stats-next_poll_example =
    pull_stats-next_poll process groups none sums polled refl sums_pulled
      (pull_stats_enabled process groups none sums refl sums_pulled)

groups_distinct : HasDistinctKeys groups
unfolding lookup
groups_distinct = (refl, (refl, tt))

pull_stats-status_at_example :
    status_at polled.updated_scaling_status "pool"
    ≡ expected process groups none sums "pool" (lookup "pool" groups)
pull_stats-status_at_example =
    pull_stats-status_at process groups none sums polled "pool" groups_distinct refl sums_pulled
      (pull_stats_enabled process groups none sums refl sums_pulled)

pull_stats-IsAllowed_example : All (IsAllowed groups "us") polled.actions
pull_stats-IsAllowed_example =
    pull_stats-IsAllowed process groups none sums polled refl sums_pulled
      (pull_stats_enabled process groups none sums refl sums_pulled)

abbrev pub decision : DeferredRequest Decimals ℕ
decision = record {
  request = missed;
  scaling_group_key = "pool";
  scaling_group_spec = pool;
  effective_task_types = workflow ∷ [];
  scaling_status = none;
}

handle_deferred_scaling_decision-IsDeferredAnswer_example :
    IsDeferredAnswer decision (handle_deferred_scaling_decision process decision)
handle_deferred_scaling_decision-IsDeferredAnswer_example =
    handle_deferred_scaling_decision-IsDeferredAnswer process decision

groups_valid : validate_spec process (some groups) [] ≡ ok tt
unfolding validate_spec check_entries check_entry check_scaling find_provider get_compute_provider
    get_scaling_algorithm register_scaling_algorithm add_defaults RateConfig.validate_config
    validate_int64_in_map int64_error validate_float64_in_map float64_error get_int64_from_map
    get_float64_from_map int64_or float64_or lookup insert
groups_valid = refl

validate_spec-IsReady_example : IsReady process [] ("pool", pool)
validate_spec-IsReady_example =
    validate_spec-IsReady process groups [] ("pool", pool) groups_valid (Memᴰ.head refl)

validate_spec-IsConfigured_example : IsConfigured pool_scaling small
validate_spec-IsConfigured_example =
    validate_spec-IsConfigured process groups [] "pool" pool pool_scaling small refl groups_valid
      (Memᴰ.head refl) refl refl

-- A workflow task in the region "us" belongs to the group "a".
serves_workflow : scaling_group_key_for_task_queue_type two_groups workflow "us" ≡ "a"
unfolding scaling_group_key_for_task_queue_type claimed_group claim_rank
serves_workflow = refl

handle_task_add_signal-IsForTask_example :
    All
      (IsForTask "a" workflow)
      (handle_task_add_signal process missed (some two_groups) none).actions
    × ((k : String)
        → status_at
            (handle_task_add_signal process missed (some two_groups) none).updated_scaling_status
            k
          ≡ (if str_eq "a" k
              then answered_status
                  (task_add_answer process missed two_groups none "a")
                  (status_at none "a")
              else status_at none k))
handle_task_add_signal-IsForTask_example =
    handle_task_add_signal-IsForTask process missed two_groups none "a" two_unique
      (λ e. false≢true ((eq_iff "a" "").1 e)) serves_workflow
