-- ===== src/Scaling/Registry.antt =====
-- wci/workflow/scaling_algorithm/registry.go: what an algorithm is given and what it answers.
pub mod First
use temporal_auto_scaled_wor.Prelude.{
  ℤ, Bool, String, List, [], ◌∷◌, Option, none, some, Float64, Map, lookup, insert_new,
  if◌then◌else◌, not, Result, ok, err,
}
use temporal_auto_scaled_wor.ComputeProvider.{LaunchStrategy}
use temporal_auto_scaled_wor.Iface.Spec.{contains}
use temporal_auto_scaled_wor.Iface.Types.{
  TaskQueueType, QueueTypeScalingMetrics, ScalingAlgorithmConfig, ScalingAlgorithmStatus,
  SignalTaskAddRequest,
}

-- An ActionType is a text, of which three are known.
pub data ActionType : Type 0 where
  invoke_worker update_worker_set_size deferred_scaling_decision : ActionType
  unknown_action : String → ActionType

-- `none` is a nil count or a nil slice.
pub record ScalingAction : Type 0 where
  pub scaling_group_key : String
  pub action : ActionType
  pub count : Option ℤ
  pub effective_task_types : Option (List TaskQueueType)

abbrev pub action_of : ActionType → Option ℤ → ScalingAction
action_of a n = record {
  scaling_group_key = "";
  action = a;
  count = n;
  effective_task_types = none;
}

pub record ScalingMetricsSnapshot (F : Float64) : Type 0 where
  pub workflow : Option (QueueTypeScalingMetrics F)
  pub activity : Option (QueueTypeScalingMetrics F)
  pub nexus : Option (QueueTypeScalingMetrics F)

pub record TaskAddResponse (F : Float64) : Type 0 where
  pub actions : List ScalingAction
  pub status : ScalingAlgorithmStatus F
  pub throttled_count : ℤ

-- `next_poll` is a duration in nanoseconds.
pub record MetricsPollResponse (F : Float64) : Type 0 where
  pub actions : List ScalingAction
  pub status : ScalingAlgorithmStatus F
  pub next_poll : Option ℤ

pub record TaskQueueRegistrationResponse (F : Float64) : Type 0 where
  pub actions : List ScalingAction
  pub status : ScalingAlgorithmStatus F

-- Why an algorithm or its constructor fails, with the message.
abbrev pub AlgorithmError : Type 0
AlgorithmError = String

module _ (F : Float64) where
  -- The answer of the getter of metrics: a snapshot, which may be nil, or an error.
  abbrev pub SnapshotAnswer : Type 0
  SnapshotAnswer = Result String (Option (ScalingMetricsSnapshot F))

  -- An algorithm, as its callers see it. The first argument of an operation that reads the clock
  -- is the time in milliseconds; `none` is a nil response, or no error.
  pub record ScalingAlgorithm : Type 0 where
    pub compatible_launch_strategies : List LaunchStrategy
    pub validate_config : ScalingAlgorithmConfig F → Option AlgorithmError
    pub process_task_add :
        ℤ
        → ScalingAlgorithmConfig F
        → ScalingAlgorithmStatus F
        → SignalTaskAddRequest
        → Result AlgorithmError (Option (TaskAddResponse F))
    pub process_deferred_scaling_decision :
        ScalingAlgorithmConfig F
        → ScalingAlgorithmStatus F
        → SignalTaskAddRequest
        → Option (SnapshotAnswer)
        → Result AlgorithmError (Option (TaskAddResponse F))
    pub process_metrics_poll :
        ℤ
        → ScalingAlgorithmConfig F
        → ScalingAlgorithmStatus F
        → ScalingMetricsSnapshot F
        → Result AlgorithmError (MetricsPollResponse F)
    pub task_queue_registration_actions :
        ScalingAlgorithmConfig F
        → ScalingAlgorithmStatus F
        → Result AlgorithmError (TaskQueueRegistrationResponse F)
    pub inactive_group_actions :
        ScalingAlgorithmConfig F
        → ScalingAlgorithmStatus F
        → Result AlgorithmError (MetricsPollResponse F)

  -- The registered constructors, each with its answer, and the default type of each provider.
  pub record Registry : Type 0 where
    pub constructors : Map (Result AlgorithmError ScalingAlgorithm)
    pub defaults : Map String

abbrev pub empty_registry : (F : Float64) → Registry F
empty_registry F = record { constructors = []; defaults = [] }

-- The defaults with a type for the providers that have none.
unfoldable pub add_defaults : String → List String → Map String → Map String
add_defaults k [] m = m
add_defaults k (p ∷ ps) m = add_defaults k ps (insert_new p k (lookup p m) m)

-- The enabled types of the dynamic configuration; `none` is the nil list.
abbrev pub is_enabled : Option (List String) → String → Bool
is_enabled none k = Bool.true
is_enabled (some enabled) k = contains enabled k

module _ {F : Float64} where
  unfoldable pub register_scaling_algorithm :
      String → Result AlgorithmError (ScalingAlgorithm F) → List String → Registry F → Registry F
  register_scaling_algorithm k ctor providers r = record {
    constructors = insert_new k ctor (lookup k r.constructors) r.constructors;
    defaults = add_defaults k providers r.defaults;
  }

  abbrev pub constructed :
      Option (Result AlgorithmError (ScalingAlgorithm F))
      → Result AlgorithmError (Option (ScalingAlgorithm F))
  constructed none = ok none
  constructed (some (ok a)) = ok (some a)
  constructed (some (err e)) = err e

  -- `none` is the nil algorithm of a type that is not registered.
  unfoldable pub get_scaling_algorithm_without_validation :
      String → Registry F → Result AlgorithmError (Option (ScalingAlgorithm F))
  get_scaling_algorithm_without_validation k r = constructed (lookup k r.constructors)

  abbrev pub default_of :
      Option String → Registry F → Result AlgorithmError (Option (ScalingAlgorithm F))
  default_of none r = ok none
  default_of (some k) r = get_scaling_algorithm_without_validation k r

  unfoldable pub get_default_scaling_algorithm_for_compute_provider :
      String → Registry F → Result AlgorithmError (Option (ScalingAlgorithm F))
  get_default_scaling_algorithm_for_compute_provider p r = default_of (lookup p r.defaults) r

  unfoldable pub get_scaling_algorithm :
      Option (List String)
      → String
      → Registry F
      → Result AlgorithmError (Option (ScalingAlgorithm F))
  get_scaling_algorithm enabled k r =
      if not (is_enabled enabled k) then ok none else constructed (lookup k r.constructors)
