-- ===== src/Scaling/RateBased.antt =====
-- wci/workflow/scaling_algorithm/rate_based.go: the algorithm that sizes a set of workers by the rates
-- of its queues. The current time in milliseconds is an argument of each call. Here: the state, its
-- cleaning and the estimates; the decisions are in Decisions.antt, the configuration in Config.antt.
pub mod Decisions
pub mod State
pub mod Config
pub mod Bounds
pub mod Counts
use temporal_auto_scaled_wor.Prelude.{
  ℕ, ℤ, pos, negsuc, ltb_ℤ, leb_ℤ, eq_ℤ, add64, wrap32, max_ℤ, min_ℤ, half32, if◌then◌else◌, Bool,
  true, false, not, ◌&&◌, ◌||◌, String, Option, none, some, List, [], ◌∷◌, ◌++◌, Map, lookup,
  insert, delete, keep_keys, Float64,
}
use temporal_auto_scaled_wor.Iface.Types.{
  Value, int, int64, float64, ScalingAlgorithmConfig, ScalingAlgorithmStatus,
  QueueTypeScalingMetrics,
}
use temporal_auto_scaled_wor.Iface.MapAccess.{get_int64_from_map, get_float64_from_map}
use temporal_auto_scaled_wor.Iface.Spec.{contains}
use temporal_auto_scaled_wor.Scaling.Registry.{ScalingMetricsSnapshot}

abbrev pub worker_count_key : String
worker_count_key = "worker_count"

abbrev pub arrival_rate_key : String
arrival_rate_key = "ewma_arrival_rate"

abbrev pub dispatch_rate_key : String
dispatch_rate_key = "ewma_dispatch_rate"

abbrev pub capacity_key : String
capacity_key = "ewma_per_consumer_capacity"

abbrev pub last_up_key : String
last_up_key = "last_scale_up_time_ms"

abbrev pub last_down_key : String
last_down_key = "last_scale_down_time_ms"

abbrev pub last_no_sync_key : String
last_no_sync_key = "last_no_sync_match_time_ms"

abbrev pub valid_state_keys : List String
valid_state_keys =
    worker_count_key ∷ arrival_rate_key ∷ dispatch_rate_key ∷ capacity_key ∷ last_up_key
    ∷ last_down_key ∷ last_no_sync_key ∷ []

abbrev pub max_int32 : ℤ
max_int32 = pos 2147483647

module _ (F : Float64) where
  abbrev pub zero_float : F.Carrier
  zero_float = F.of_int (pos 0)

  abbrev pub one_float : F.Carrier
  one_float = F.of_int (pos 1)

  abbrev pub is_finite : F.Carrier → Bool
  is_finite x = not (F.is_nan x) && not (F.is_inf x)

  abbrev pub is_positive_finite : F.Carrier → Bool
  is_positive_finite x = is_finite x && F.lt zero_float x

  -- The configured values, with their defaults.
  abbrev pub min_count : ScalingAlgorithmConfig F → ℤ
  min_count config = wrap32 (get_int64_from_map F config "min_count" (pos 0))

  abbrev pub max_count : ScalingAlgorithmConfig F → ℤ
  max_count config = wrap32 (get_int64_from_map F config "max_count" (pos 30))

  abbrev pub initial_count : ScalingAlgorithmConfig F → ℤ
  initial_count config = wrap32 (get_int64_from_map F config "initial_count" (pos 0))

  abbrev pub max_step : ScalingAlgorithmConfig F → ℤ
  max_step config = wrap32 (get_int64_from_map F config "max_scale_up_step" (pos 4))

  abbrev pub up_cooldown_ms : ScalingAlgorithmConfig F → ℤ
  up_cooldown_ms config = get_int64_from_map F config "scale_up_cooldown_ms" (pos 2000)

  abbrev pub down_cooldown_ms : ScalingAlgorithmConfig F → ℤ
  down_cooldown_ms config = get_int64_from_map F config "scale_down_cooldown_ms" (pos 60000)

  abbrev pub quiet_ms : ScalingAlgorithmConfig F → ℤ
  quiet_ms config = get_int64_from_map F config "no_sync_quiet_ms" (pos 90000)

  abbrev pub poll_interval_ms : ScalingAlgorithmConfig F → ℤ
  poll_interval_ms config = get_int64_from_map F config "metrics_poll_interval_ms" (pos 60000)

  abbrev pub material_backlog : ScalingAlgorithmConfig F → ℤ
  material_backlog config = get_int64_from_map F config "material_backlog_threshold" (pos 50)

  abbrev pub ewma_alpha : ScalingAlgorithmConfig F → F.Carrier
  ewma_alpha config = get_float64_from_map F config "ewma_alpha" (F.decimal (pos 45) 2)

  abbrev pub initial_capacity : ScalingAlgorithmConfig F → F.Carrier
  initial_capacity config =
      get_float64_from_map F config "initial_per_consumer_capacity" (F.decimal (pos 20) 1)

  abbrev pub drain_rate : ScalingAlgorithmConfig F → F.Carrier
  drain_rate config =
      get_float64_from_map F config "target_backlog_drain_rate" (F.decimal (pos 20) 1)

  abbrev pub utilization_target : ScalingAlgorithmConfig F → F.Carrier
  utilization_target config =
      get_float64_from_map F config "utilization_target" (F.decimal (pos 80) 2)

  abbrev pub halfin_whitt_beta : ScalingAlgorithmConfig F → F.Carrier
  halfin_whitt_beta config = get_float64_from_map F config "halfin_whitt_beta" (F.decimal (pos 5) 1)

  -- The tests of stored values.
  abbrev pub is_finite_float64 : Value F → Bool
  is_finite_float64 (float64 x) = is_finite x
  is_finite_float64 _ = false

  abbrev pub is_not_non_positive_float64 : Value F → Bool
  is_not_non_positive_float64 (float64 x) = not (F.le x zero_float)
  is_not_non_positive_float64 _ = true

  abbrev pub is_valid_non_negative_int32 : Value F → Bool
  is_valid_non_negative_int32 (int n) = leb_ℤ (pos 0) n && leb_ℤ n max_int32
  is_valid_non_negative_int32 (int64 n) = leb_ℤ (pos 0) n && leb_ℤ n max_int32
  is_valid_non_negative_int32 (float64 x) =
      is_finite x && F.le zero_float x && F.le x (F.of_int max_int32) && F.eq x (F.trunc x)
  is_valid_non_negative_int32 _ = false

  abbrev pub is_valid_non_negative_int64 : Value F → Bool
  is_valid_non_negative_int64 (int n) = leb_ℤ (pos 0) n
  is_valid_non_negative_int64 (int64 n) = leb_ℤ (pos 0) n
  is_valid_non_negative_int64 (float64 x) =
      is_finite x
      && F.le zero_float x
      && F.lt x (F.of_int (pos 9223372036854775807))
      && F.eq x (F.trunc x)
  is_valid_non_negative_int64 _ = false

  -- Delete an entry that fails a test.
  abbrev pub passes : (Value F → Bool) → Option (Value F) → Bool
  passes p none = true
  passes p (some v) = p v

  unfoldable pub drop_unless : (Value F → Bool) → String → Map (Value F) → Map (Value F)
  drop_unless p k m = if passes p (lookup k m) then m else delete k m

  abbrev pub entries : ScalingAlgorithmStatus F → Map (Value F)
  entries none = []
  entries (some m) = m

  unfoldable pub clean_state : ScalingAlgorithmStatus F → Map (Value F)
  clean_state prior =
      let known = keep_keys (contains valid_state_keys) (entries prior) in
      let arrival = drop_unless is_finite_float64 arrival_rate_key known in
      let dispatch = drop_unless is_finite_float64 dispatch_rate_key arrival in
      let capacity = drop_unless is_finite_float64 capacity_key dispatch in
      let positive = drop_unless is_not_non_positive_float64 capacity_key capacity in
      let counted = drop_unless is_valid_non_negative_int32 worker_count_key positive in
      let up = drop_unless is_valid_non_negative_int64 last_up_key counted in
      let down = drop_unless is_valid_non_negative_int64 last_down_key up in
      drop_unless is_valid_non_negative_int64 last_no_sync_key down

  abbrev pub count_or : ScalingAlgorithmConfig F → Map (Value F) → Option (Value F) → ℤ
  count_or config m none = initial_count config
  count_or config m (some v) = wrap32 (get_int64_from_map F (some m) worker_count_key (pos 0))

  unfoldable pub planned_count : ScalingAlgorithmConfig F → Map (Value F) → ℤ
  planned_count config m = count_or config m (lookup worker_count_key m)

  pub record AggregateMetrics : Type 0 where
    pub backlog : ℤ
    pub arrival_rate : F.Carrier
    pub dispatch_rate : F.Carrier
    pub has_data : Bool
    pub dropped_queues : List String

module _ (F : Float64) where
  abbrev pub no_metrics : AggregateMetrics F
  no_metrics = record {
    backlog = pos 0;
    arrival_rate = zero_float F;
    dispatch_rate = zero_float F;
    has_data = false;
    dropped_queues = [];
  }

  abbrev pub is_invalid_sample : QueueTypeScalingMetrics F → Bool
  is_invalid_sample q =
      F.is_nan q.last_arrival_rate
      || F.is_inf q.last_arrival_rate
      || F.is_nan q.last_processing_rate
      || F.is_inf q.last_processing_rate
      || F.lt q.last_arrival_rate (zero_float F)
      || F.lt q.last_processing_rate (zero_float F)
      || ltb_ℤ q.last_backlog_count (pos 0)

  unfoldable pub add_queue :
      String → Option (QueueTypeScalingMetrics F) → AggregateMetrics F → AggregateMetrics F
  add_queue name none a = a
  add_queue name (some q) a =
      if is_invalid_sample q
      then record a { dropped_queues = a.dropped_queues ++ name ∷ [] }
      else record a {
        has_data = true;
        backlog = add64 a.backlog q.last_backlog_count;
        arrival_rate = F.add a.arrival_rate q.last_arrival_rate;
        dispatch_rate = F.add a.dispatch_rate q.last_processing_rate;
      }

  unfoldable pub aggregate : Option (ScalingMetricsSnapshot F) → AggregateMetrics F
  unfolding add_queue
  aggregate none = no_metrics
  aggregate (some s) =
      add_queue "nexus" s.nexus
        (add_queue "activity" s.activity (add_queue "workflow" s.workflow no_metrics))

  -- alpha * sample + (1 - alpha) * previous
  abbrev pub smooth : F.Carrier → F.Carrier → F.Carrier → F.Carrier
  smooth alpha sample previous =
      F.add (F.mul alpha sample) (F.mul (F.sub (one_float F) alpha) previous)

  abbrev pub ewma_of : F.Carrier → F.Carrier → Option (Value F) → F.Carrier
  ewma_of alpha sample (some (float64 previous)) = smooth alpha sample previous
  ewma_of alpha sample _ = sample

  unfoldable pub update_ewma_value : Map (Value F) → String → F.Carrier → F.Carrier → F.Carrier
  update_ewma_value m k alpha sample = ewma_of alpha sample (lookup k m)

  unfoldable pub update_ewma :
      ScalingAlgorithmConfig F → Map (Value F) → AggregateMetrics F → Map (Value F)
  update_ewma config m a =
      let alpha = ewma_alpha F config in
      let m' =
        insert arrival_rate_key
          (float64 (update_ewma_value m arrival_rate_key alpha a.arrival_rate)) m in
      insert dispatch_rate_key
        (float64 (update_ewma_value m' dispatch_rate_key alpha a.dispatch_rate)) m'

  abbrev pub rate_of : Map (Value F) → String → F.Carrier
  rate_of m k = get_float64_from_map F (some m) k (zero_float F)

  unfoldable pub snap_idle_ewma_to_zero : Map (Value F) → AggregateMetrics F → Map (Value F)
  snap_idle_ewma_to_zero m a =
      if not a.has_data
      then m
      else if not (eq_ℤ a.backlog (pos 0))
          || not (F.eq a.arrival_rate (zero_float F))
          || not (F.eq a.dispatch_rate (zero_float F))
      then m
      else if F.eq (rate_of m arrival_rate_key) (zero_float F)
          && F.eq (rate_of m dispatch_rate_key) (zero_float F)
      then m
      else insert dispatch_rate_key (float64 (zero_float F))
          (insert arrival_rate_key (float64 (zero_float F)) m)

  abbrev pub capacity_or : F.Carrier → Option (Value F) → F.Carrier
  capacity_or fallback (some (float64 x)) = if is_positive_finite F x then x else fallback
  capacity_or fallback _ = fallback

  unfoldable pub estimated_capacity : ScalingAlgorithmConfig F → Map (Value F) → F.Carrier
  estimated_capacity config m = capacity_or (initial_capacity F config) (lookup capacity_key m)

  unfoldable pub update_capacity :
      ScalingAlgorithmConfig F → Map (Value F) → ℤ → F.Carrier → Map (Value F)
  update_capacity config m planned dispatch =
      let observed = F.div dispatch (F.of_int planned) in
      if leb_ℤ planned (pos 0) || F.le dispatch (zero_float F)
      then m
      else if not (is_positive_finite F observed)
      then m
      else insert capacity_key
          (float64 (smooth (ewma_alpha F config) observed (estimated_capacity config m))) m

  -- The number of workers for the rates, at most the configured maximum.
  unfoldable pub raw_desired : ScalingAlgorithmConfig F → Map (Value F) → ℤ → ℤ
  raw_desired config m backlog =
      let catch_up = if ltb_ℤ (pos 0) backlog then drain_rate F config else zero_float F in
      let required = F.add (rate_of m arrival_rate_key) catch_up in
      let load =
        if F.lt (zero_float F) required
        then F.div required (estimated_capacity config m)
        else zero_float F in
      let loaded = F.lt (zero_float F) load in
      let utilization =
        if loaded then F.ceil (F.div load (utilization_target F config)) else zero_float F in
      let halfin_whitt =
        if loaded
        then F.ceil (F.add load (F.mul (halfin_whitt_beta F config) (F.sqrt load)))
        else zero_float F in
      F.to_int32 (
        F.min (F.max (F.max utilization halfin_whitt) (zero_float F))
          (F.of_int (max_count F config)))

  unfoldable pub desired_capacity : ScalingAlgorithmConfig F → Map (Value F) → ℤ → ℤ
  desired_capacity config m backlog =
      min_ℤ (max_ℤ (raw_desired config m backlog) (min_count F config)) (max_count F config)
