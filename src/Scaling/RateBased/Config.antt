-- ===== src/Scaling/RateBased/Config.antt =====
-- rate_based.go: ValidateConfig, and what it establishes.
use temporal_auto_scaled_wor.Prelude.{
  ℤ, pos, negsuc, ◌≤ℤ◌, ltb_ℤ, wrap32, wrap32_lem, if◌then◌else◌, Bool, not, ◌||◌, ◌&&◌, String,
  Option, none, some, List, [], ◌∷◌, Map, any, first_some, first_some-none, parse_int, Float64, ◌≡◌,
  ◌⊎◌, inl, inr, refl, sym, ap, subst, arith, Option-cases, Bool-cases, true, false,
}
use temporal_auto_scaled_wor.Iface.Types.{Value, int, int64, float64, text, ScalingAlgorithmConfig}
use temporal_auto_scaled_wor.Iface.MapAccess.{
  FieldError, field, int64_or, get_int64_from_map, validate_int64_in_map, validate_float64_in_map,
}
use temporal_auto_scaled_wor.Iface.Spec.{contains}
use temporal_auto_scaled_wor.Scaling.RateBased.{
  zero_float, one_float, max_int32, is_positive_finite, min_count, max_count, initial_count,
  max_step, up_cooldown_ms, down_cooldown_ms, poll_interval_ms, ewma_alpha, initial_capacity,
  utilization_target,
}

abbrev pub valid_config_keys : List String
valid_config_keys =
    "min_count" ∷ "max_count" ∷ "initial_count" ∷ "metrics_poll_interval_ms" ∷ "ewma_alpha"
    ∷ "initial_per_consumer_capacity" ∷ "target_backlog_drain_rate" ∷ "material_backlog_threshold"
    ∷ "utilization_target" ∷ "halfin_whitt_beta" ∷ "max_scale_up_step" ∷ "scale_up_cooldown_ms"
    ∷ "scale_down_cooldown_ms" ∷ "no_sync_quiet_ms" ∷ []

pub data ConfigError (F : Float64) : Type 0 where
  unknown_key : ConfigError F
  bad_field : FieldError F → ConfigError F
  above_max_int32 negative : String → ConfigError F
  min_above_max initial_outside bad_alpha bad_initial_capacity bad_utilization : ConfigError F
  poll_below_up_cooldown poll_below_down_cooldown : ConfigError F

module _ (F : Float64) where
  abbrev fail_if : Bool → ConfigError F → Option (ConfigError F)
  fail_if b e = if b then some e else none

  abbrev field_error : Option (FieldError F) → Option (ConfigError F)
  field_error none = none
  field_error (some e) = some (bad_field e)

  abbrev int_field : Option (Map (Value F)) → String → ℤ → Option (ConfigError F)
  int_field config k low = field_error (validate_int64_in_map F config k low)

  abbrev float_field : Option (Map (Value F)) → String → Option (ConfigError F)
  float_field config k = field_error (validate_float64_in_map F config k (zero_float F))

  -- The check of a count that narrows to int32, for a key that is present.
  abbrev int32_error : Option (Map (Value F)) → String → Option (Value F) → Option (ConfigError F)
  int32_error config k none = none
  int32_error config k (some v) =
      let n = get_int64_from_map F config k (pos 0) in
      if ltb_ℤ max_int32 n
      then some (above_max_int32 k)
      else if ltb_ℤ n (pos 0)
      then some (negative k)
      else none

  -- The counts before they narrow to int32.
  abbrev min_count64 : ScalingAlgorithmConfig F → ℤ
  min_count64 config = get_int64_from_map F config "min_count" (pos 0)

  abbrev max_count64 : ScalingAlgorithmConfig F → ℤ
  max_count64 config = get_int64_from_map F config "max_count" (pos 30)

  abbrev initial_count64 : ScalingAlgorithmConfig F → ℤ
  initial_count64 config = get_int64_from_map F config "initial_count" (pos 0)

  abbrev outside_unit : F.Carrier → Bool
  outside_unit x = F.is_nan x || F.le x (zero_float F) || F.lt (one_float F) x

  unfoldable field_checks : Map (Value F) → List (Option (ConfigError F))
  field_checks m =
      let config = some m in
      fail_if (any (λ e. not (contains valid_config_keys e.0)) m) unknown_key
      ∷ int_field config "min_count" (pos 0)
      ∷ int_field config "max_count" (pos 1)
      ∷ int_field config "initial_count" (pos 0)
      ∷ int_field config "metrics_poll_interval_ms" (pos 30000)
      ∷ int_field config "material_backlog_threshold" (pos 1)
      ∷ int_field config "max_scale_up_step" (pos 1)
      ∷ int_field config "scale_up_cooldown_ms" (pos 0)
      ∷ int_field config "scale_down_cooldown_ms" (pos 0)
      ∷ int_field config "no_sync_quiet_ms" (pos 0)
      ∷ float_field config "ewma_alpha"
      ∷ float_field config "initial_per_consumer_capacity"
      ∷ float_field config "target_backlog_drain_rate"
      ∷ float_field config "utilization_target"
      ∷ float_field config "halfin_whitt_beta"
      ∷ []

  unfoldable count_checks : Map (Value F) → List (Option (ConfigError F))
  count_checks m =
      let config = some m in
      int32_error config "min_count" (field F config "min_count")
      ∷ int32_error config "max_count" (field F config "max_count")
      ∷ int32_error config "initial_count" (field F config "initial_count")
      ∷ int32_error config "max_scale_up_step" (field F config "max_scale_up_step")
      ∷ fail_if (ltb_ℤ (max_count64 config) (min_count64 config)) min_above_max
      ∷ fail_if
          (ltb_ℤ (initial_count64 config) (min_count64 config)
            || ltb_ℤ (max_count64 config) (initial_count64 config))
          initial_outside
      ∷ []

  unfoldable rate_checks : Map (Value F) → List (Option (ConfigError F))
  rate_checks m =
      let config = some m in
      fail_if (outside_unit (ewma_alpha F config)) bad_alpha
      ∷ fail_if (not (is_positive_finite F (initial_capacity F config))) bad_initial_capacity
      ∷ fail_if (outside_unit (utilization_target F config)) bad_utilization
      ∷ fail_if
          (ltb_ℤ (pos 0) (up_cooldown_ms F config)
            && ltb_ℤ (poll_interval_ms F config) (up_cooldown_ms F config))
          poll_below_up_cooldown
      ∷ fail_if
          (ltb_ℤ (pos 0) (down_cooldown_ms F config)
            && ltb_ℤ (poll_interval_ms F config) (down_cooldown_ms F config))
          poll_below_down_cooldown
      ∷ []

  -- `none` is no error.
  unfoldable pub validate_config : ScalingAlgorithmConfig F → Option (ConfigError F)
  unfolding field_checks count_checks rate_checks
  validate_config none = none
  validate_config (some m) =
      first_some (
        first_some (field_checks m) ∷ first_some (count_checks m) ∷ first_some (rate_checks m) ∷ [])

  -- The counts of a valid configuration.
  pub record IsBounded (config : ScalingAlgorithmConfig F) : Type 0 where
    pub min_nonneg : pos 0 ≤ℤ min_count F config
    pub min-le-max : min_count F config ≤ℤ max_count F config
    pub max_int : max_count F config ≤ℤ max_int32
    pub min-le-initial : min_count F config ≤ℤ initial_count F config
    pub initial-le-max : initial_count F config ≤ℤ max_count F config
    pub step_nonneg : pos 0 ≤ℤ max_step F config
    pub step_int : max_step F config ≤ℤ max_int32

  -- The counts read as int32 are the configured ones.
  pub record IsExact (config : ScalingAlgorithmConfig F) : Type 0 where
    pub min : min_count F config ≡ min_count64 config
    pub max : max_count F config ≡ max_count64 config
    pub initial : initial_count F config ≡ initial_count64 config
    pub step : max_step F config ≡ get_int64_from_map F config "max_scale_up_step" (pos 4)

  -- A float64 above 0 and at most 1.
  abbrev pub IsFraction : F.Carrier → Type 0
  IsFraction x =
      (F.is_nan x ≡ false) × (F.le x (zero_float F) ≡ false) × (F.lt (one_float F) x ≡ false)

  -- A cooldown is off, or not longer than the time between two polls.
  abbrev pub IsCooldown : ScalingAlgorithmConfig F → ℤ → Type 0
  IsCooldown config cooldown = (cooldown ≤ℤ pos 0) ⊎ (cooldown ≤ℤ poll_interval_ms F config)

  -- The rates and the cooldowns of a valid configuration.
  pub record IsRated (config : ScalingAlgorithmConfig F) : Type 0 where
    pub alpha : IsFraction (ewma_alpha F config)
    pub capacity :
        (F.is_nan (initial_capacity F config) ≡ false)
        × (F.is_inf (initial_capacity F config) ≡ false)
        × (F.lt (zero_float F) (initial_capacity F config) ≡ true)
    pub utilization : IsFraction (utilization_target F config)
    pub up : IsCooldown config (up_cooldown_ms F config)
    pub down : IsCooldown config (down_cooldown_ms F config)

  pub record IsValid (config : ScalingAlgorithmConfig F) : Type 0 where
    pub bounded : IsBounded config
    pub exact : IsExact config
    pub rated : IsRated config

  -- A read with another default is the same, or that default.
  int64_or-default :
      (v : Option (Value F)) (d : ℤ)
      → (int64_or F v d ≡ d) ⊎ (int64_or F v d ≡ int64_or F v (pos 0))
  unfolding int64_or
  int64_or-default none d = inl refl
  int64_or-default (some (int n)) d = inr refl
  int64_or-default (some (int64 n)) d = inr refl
  int64_or-default (some (float64 x)) d = inr refl
  int64_or-default (some (text s)) d = go (parse_int s)
    where
      go :
          (o : Option ℤ)
          → ((elim o as (λ _. ℤ) [ none ↦ d | some n ↦ n ]) ≡ d)
            ⊎ ((elim o as (λ _. ℤ) [ none ↦ d | some n ↦ n ])
                ≡ (elim o as (λ _. ℤ) [ none ↦ pos 0 | some n ↦ n ]))
      go none = inl refl
      go (some n) = inr refl
  int64_or-default (some v) d = inl refl

  abbrev IsInt32Count : ℤ → Type 0
  IsInt32Count n = (pos 0 ≤ℤ n) × (n ≤ℤ max_int32)

  default_count :
      (v : Option (Value F)) (d : ℤ)
      → IsInt32Count d
      → IsInt32Count (int64_or F v (pos 0))
      → IsInt32Count (int64_or F v d)
  default_count v d a b = elim (int64_or-default v d) [
    | inl e ↦ subst IsInt32Count (sym e) a
    | inr e ↦ subst IsInt32Count (sym e) b
  ]

  -- A count that passes the check is an int32 and not negative, whatever its default is.
  checked_count :
      (m : Map (Value F)) (k : String) (d : ℤ)
      → IsInt32Count d
      → int32_error (some m) k (field F (some m) k) ≡ none
      → IsInt32Count (get_int64_from_map F (some m) k d)
  unfolding get_int64_from_map int64_or
  checked_count m k d a h = elim (Option-cases (field F (some m) k)) [
    | inl absent ↦ rw absent a
    | inr (v, present) ↦
        default_count (field F (some m) k) d a (ground (arith, ap (int32_error (some m) k) present))
  ]

  narrow : (n : ℤ) → IsInt32Count n → wrap32 n ≡ n
  narrow (pos n) h = wrap32_lem (pos n) (omega arith)
  narrow (negsuc n) h = absurd (omega arith)

  -- The bounds of the narrowed counts, from those of the counts.
  bounded :
      (m : Map (Value F))
      → IsInt32Count (min_count64 (some m))
      → IsInt32Count (max_count64 (some m))
      → IsInt32Count (initial_count64 (some m))
      → IsInt32Count (get_int64_from_map F (some m) "max_scale_up_step" (pos 4))
      → min_count64 (some m) ≤ℤ max_count64 (some m)
      → min_count64 (some m) ≤ℤ initial_count64 (some m)
      → initial_count64 (some m) ≤ℤ max_count64 (some m)
      → IsBounded (some m)
  bounded m low high first step a b c =
      let l = narrow _ low in
      let h = narrow _ high in
      let f = narrow _ first in
      let s = narrow _ step in
      record {
        min_nonneg = rw l low.0;
        min-le-max = rw (l, h) a;
        max_int = rw h high.1;
        min-le-initial = rw (l, f) b;
        initial-le-max = rw (f, h) c;
        step_nonneg = rw s step.0;
        step_int = rw s step.1;
      }

  passed_order :
      (m : Map (Value F))
      → fail_if (ltb_ℤ (max_count64 (some m)) (min_count64 (some m))) min_above_max ≡ none
      → min_count64 (some m) ≤ℤ max_count64 (some m)
  passed_order m h = ground arith

  passed_inside :
      (m : Map (Value F))
      → fail_if
          (ltb_ℤ (initial_count64 (some m)) (min_count64 (some m))
            || ltb_ℤ (max_count64 (some m)) (initial_count64 (some m)))
          initial_outside
        ≡ none
      → (min_count64 (some m) ≤ℤ initial_count64 (some m))
        × (initial_count64 (some m) ≤ℤ max_count64 (some m))
  passed_inside m h = ground arith

  checked_counts :
      (m : Map (Value F))
      → first_some (count_checks m) ≡ none
      → IsBounded (some m) × IsExact (some m)
  unfolding count_checks
  checked_counts m h =
      let c = first_some-none (count_checks m) h in
      let low = checked_count m "min_count" (pos 0) (omega arith) c.0 in
      let high = checked_count m "max_count" (pos 30) (omega arith) c.1.0 in
      let first = checked_count m "initial_count" (pos 0) (omega arith) c.1.1.0 in
      let step = checked_count m "max_scale_up_step" (pos 4) (omega arith) c.1.1.1.0 in
      (
        bounded m low high first step (passed_order m c.1.1.1.1.0) (passed_inside m c.1.1.1.1.1.0).0
            (passed_inside m c.1.1.1.1.1.0).1,
        record {
          min = narrow _ low;
          max = narrow _ high;
          initial = narrow _ first;
          step = narrow _ step;
        },
      )

  passed-IsFraction :
      (x : F.Carrier) (e : ConfigError F) → fail_if (outside_unit x) e ≡ none → IsFraction x
  passed-IsFraction x e h = (ground arith, ground arith, ground arith)

  passed_positive :
      (x : F.Carrier) (e : ConfigError F)
      → fail_if (not (is_positive_finite F x)) e ≡ none
      → (F.is_nan x ≡ false) × (F.is_inf x ≡ false) × (F.lt (zero_float F) x ≡ true)
  passed_positive x e h = (ground arith, ground arith, ground arith)

  passed-IsCooldown :
      (cooldown interval : ℤ) (e : ConfigError F)
      → fail_if (ltb_ℤ (pos 0) cooldown && ltb_ℤ interval cooldown) e ≡ none
      → (cooldown ≤ℤ pos 0) ⊎ (cooldown ≤ℤ interval)
  passed-IsCooldown cooldown interval e h = elim (Bool-cases (ltb_ℤ (pos 0) cooldown)) [
    | inl on ↦ inr (ground arith)
    | inr off ↦ inl (ground arith)
  ]

  checked_rates : (m : Map (Value F)) → first_some (rate_checks m) ≡ none → IsRated (some m)
  unfolding rate_checks
  checked_rates m h =
      let c = first_some-none (rate_checks m) h in
      record {
        alpha = passed-IsFraction (ewma_alpha F (some m)) bad_alpha c.0;
        capacity = passed_positive (initial_capacity F (some m)) bad_initial_capacity c.1.0;
        utilization = passed-IsFraction (utilization_target F (some m)) bad_utilization c.1.1.0;
        up =
            passed-IsCooldown (up_cooldown_ms F (some m)) (poll_interval_ms F (some m))
              poll_below_up_cooldown c.1.1.1.0;
        down =
            passed-IsCooldown (down_cooldown_ms F (some m)) (poll_interval_ms F (some m))
              poll_below_down_cooldown c.1.1.1.1.0;
      }

  -- A configuration that passes ValidateConfig has counts that narrow to int32 unchanged, none of
  -- them negative, with the initial count between the minimum and the maximum; a smoothing factor
  -- and a target utilization above 0 and at most 1; an initial capacity that is finite and above 0;
  -- and cooldowns, where they are on, of at most the time between two polls.
  pub validate_config-IsValid :
      (m : Map (Value F)) → validate_config (some m) ≡ none → IsValid (some m)
  unfolding validate_config
  validate_config-IsValid m h =
      let checks =
        first_some-none
          (first_some (field_checks m)
            ∷ first_some (count_checks m)
            ∷ first_some (rate_checks m)
            ∷ [])
          h in
      let counts = checked_counts m checks.1.0 in
      record { bounded = counts.0; exact = counts.1; rated = checked_rates m checks.1.1.0 }

  -- Its counts are ordered.
  pub validate_config-IsBounded :
      (m : Map (Value F)) → validate_config (some m) ≡ none → IsBounded (some m)
  validate_config-IsBounded m h = (validate_config-IsValid m h).bounded
