-- ===== src/Iface/Types.antt =====
-- wci/workflow/iface/workflow.go and spec.go: the data types. A configuration payload is of a type
-- `P` of the Temporal API, which the code stores, clones and decodes elsewhere.
use temporal_auto_scaled_wor.Prelude.{
  ℕ, ℤ, String, List, Option, Bool, Map, Float64, ◌==◌, ◌≡◌, arith,
}

-- A dynamic Go value, `any`. A float32 is held as the float64 that it widens to.
pub data Value (F : Float64) : Type 0 where
  int : ℤ → Value F
  int64 : ℤ → Value F
  float32 : F.Carrier → Value F
  float64 : F.Carrier → Value F
  text : String → Value F
  null : Value F
  other : Value F

-- `none` is the nil map.
abbrev pub ScalingAlgorithmConfig : Float64 → Type 0
ScalingAlgorithmConfig F = Option (Map (Value F))

abbrev pub ScalingAlgorithmStatus : Float64 → Type 0
ScalingAlgorithmStatus F = Option (Map (Value F))

pub data TaskQueueType : Type 0 where
  unspecified workflow activity nexus : TaskQueueType

abbrev pub type_number : TaskQueueType → ℕ
type_number unspecified = 0
type_number workflow = 1
type_number activity = 2
type_number nexus = 3

abbrev pub type_eq : TaskQueueType → TaskQueueType → Bool
type_eq a b = type_number a == type_number b

-- Equal numbers are equal types.
pub type_eq_sound : (a b : TaskQueueType) → type_eq a b ≡ Bool.true → a ≡ b
type_eq_sound a b h = ground arith

pub record ComputeProviderSpec (P : Type 0) : Type 0 where
  pub provider_type : String
  pub config : Option P
  pub nexus_endpoint : String

pub record ScalingAlgorithmSpec (P : Type 0) : Type 0 where
  pub scaling_algorithm : String
  pub config : Option P

pub record ScalingGroupSpec (P : Type 0) : Type 0 where
  pub task_types : List TaskQueueType
  pub region_ids : List String
  pub compute : ComputeProviderSpec P
  pub scaling : Option (ScalingAlgorithmSpec P)

pub record ScalingGroupSpecUpdate (P : Type 0) : Type 0 where
  pub spec : ScalingGroupSpec P
  pub update_mask : List String

-- `ScalingGroupSpecs` of a WorkerControllerInstanceSpec.
abbrev pub Groups : Type 0 → Type 0
Groups P = Map (ScalingGroupSpec P)

pub record UpdateRequest (P : Type 0) : Type 0 where
  pub identity : String
  pub conflict_token : Option (List ℕ)
  pub upsert_scaling_groups : Map (ScalingGroupSpecUpdate P)
  pub remove_scaling_groups : List String

-- Ages are durations in nanoseconds.
pub record QueueTypeScalingMetrics (F : Float64) : Type 0 where
  pub last_backlog_count : ℤ
  pub last_arrival_rate : F.Carrier
  pub last_processing_rate : F.Carrier
  pub last_backlog_age : ℤ

pub record SignalTaskAddRequest : Type 0 where
  pub task_queue_name : String
  pub task_queue_type : TaskQueueType
  pub is_sync_match : Bool
  pub sync_match_signals_since_last : ℤ
  pub no_sync_match_signals_since_last : ℤ
