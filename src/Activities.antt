-- ===== src/Activities.antt =====
-- wci/workflow/activities.go: the activities, which the workflow calls for all that is not
-- deterministic. `Activities` is what an activity finds in its process and its server.
pub mod Snapshot
pub mod PullStats
pub mod TaskAdd
pub mod Deferred
pub mod ValidateSpec
pub mod Registration
pub mod Workers
pub mod Program
use Prim.Native.String.{◌++◌ as ◌+text◌}
use temporal_auto_scaled_wor.Prelude.{
  ℤ, Bool, String, Option, none, some, List, [], Map, lookup, Float64, Result, ok, err, ◌>>=◌,
}
use temporal_auto_scaled_wor.Iface.Types.{
  Value, TaskQueueType, ScalingAlgorithmConfig, ScalingAlgorithmStatus, ScalingGroupSpec,
  ScalingAlgorithmSpec,
}
use temporal_auto_scaled_wor.ComputeProvider.{Providers}
use temporal_auto_scaled_wor.Scaling.Registry.{
  AlgorithmError, ScalingAlgorithm, Registry, get_default_scaling_algorithm_for_compute_provider,
  get_scaling_algorithm_without_validation,
}

-- An application error with its type and message, or another error.
pub data ActivityError : Type 0 where
  app_error : String → String → ActivityError
  other_error : String → ActivityError

module _ (F : Float64) where
  -- The rates are float32.
  pub record TaskQueueStats : Type 0 where
    pub approximate_backlog_count : ℤ
    pub tasks_add_rate : F.Carrier
    pub tasks_dispatch_rate : F.Carrier
    pub approximate_backlog_age : ℤ

module _ (F : Float64) where
  pub record VersionTaskQueue : Type 0 where
    pub name : String
    pub type : TaskQueueType
    pub stats : Option (TaskQueueStats F)

-- An error of the server, which may be ResourceExhausted.
pub record DescribeError : Type 0 where
  pub is_resource_exhausted : Bool
  pub text : String

module _ (F : Float64) (P : Type 0) where
  -- `describe` is the answer of DescribeWorkerDeploymentVersion, of which the response and each
  -- queue may be nil; `clock` is the time in milliseconds at which a group's algorithm is called;
  -- `decode` is the data converter's FromPayload into a map, which may become nil.
  pub record Activities : Type 0 where
    pub controller_enabled : Bool
    pub region_id : String
    pub registry : Registry F
    pub enabled_algorithms : Option (List String)
    pub providers : Providers F
    pub enabled_providers : List String
    pub decode : Option P → Result String (Option (Map (Value F)))
    pub describe : Result DescribeError (Option (List (Option (VersionTaskQueue F))))
    pub clock : String → ℤ

module _ (F : Float64) where
  -- `ScalingStatus` of the requests; `none` is the nil map.
  abbrev pub StatusMap : Type 0
  StatusMap = Option (Map (ScalingAlgorithmStatus F))

module _ {F : Float64} where
  abbrev pub known :
      String → Option (ScalingAlgorithm F) → Result AlgorithmError (ScalingAlgorithm F)
  known e none = err e
  known e (some a) = ok a

  abbrev pub with_config :
      Result String (ScalingAlgorithmConfig F)
      → ScalingAlgorithm F
      → Result AlgorithmError (ScalingAlgorithm F × ScalingAlgorithmConfig F)
  with_config (err e) a = err ("invalid scaling config: " +text e)
  with_config (ok c) a = ok (a, c)

  -- `ScalingStatus[key]`.
  abbrev pub present : Option (ScalingAlgorithmStatus F) → ScalingAlgorithmStatus F
  present none = none
  present (some s) = s

  abbrev pub statuses_of : StatusMap F → Map (ScalingAlgorithmStatus F)
  statuses_of none = []
  statuses_of (some m) = m

  abbrev pub status_at : StatusMap F → String → ScalingAlgorithmStatus F
  status_at statuses key = present (lookup key (statuses_of statuses))

module _ {F : Float64} {P : Type 0} where
  abbrev pub resolve :
      Activities F P
      → String
      → Option (ScalingAlgorithmSpec P)
      → Result AlgorithmError (ScalingAlgorithm F × ScalingAlgorithmConfig F)
  resolve a provider none =
      get_default_scaling_algorithm_for_compute_provider provider a.registry
      >>= known ("unknown default scaling algorithm for compute provider " +text provider)
      >>= λ g. ok (g, none)
  resolve a provider (some s) =
      get_scaling_algorithm_without_validation s.scaling_algorithm a.registry
      >>= known ("unknown scaling algorithm " +text s.scaling_algorithm)
      >>= with_config (a.decode s.config)

  unfoldable pub get_scaling_algorithm_and_config :
      Activities F P
      → ScalingGroupSpec P
      → Result AlgorithmError (ScalingAlgorithm F × ScalingAlgorithmConfig F)
  get_scaling_algorithm_and_config a entry = resolve a entry.compute.provider_type entry.scaling
