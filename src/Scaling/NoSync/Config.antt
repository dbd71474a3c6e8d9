-- ===== src/Scaling/NoSync/Config.antt =====
-- no_sync_match.go: ValidateConfig, and what it establishes.
use temporal_auto_scaled_wor.Prelude.{
  ℤ, pos, ◌≤ℤ◌, ◌<ℤ◌, ltb_ℤ, leb_ℤ, if◌then◌else◌, Bool, true, false, not, ◌&&◌, String, Option,
  none, some, List, [], ◌∷◌, Map, lookup, any, first_some, first_some-none, Float64, ◌≡◌, ◌⊎◌, inl,
  inr, refl, arith, Bool-cases,
}
use temporal_auto_scaled_wor.Iface.Types.{Value, null, ScalingAlgorithmConfig}
use temporal_auto_scaled_wor.Iface.MapAccess.{
  FieldError, get_float64_from_map, validate_int64_in_map, validate_float64_in_map,
}
use temporal_auto_scaled_wor.Iface.Spec.{contains}
use temporal_auto_scaled_wor.Scaling.NoSync.{
  cooloff_key, backlog_threshold_key, max_lifetime_key, epsilon_key, confirm_key, poll_interval_key,
  suppress_key, suppress_poll_key, cooloff_ms, confirm_ms, poll_interval_ms, suppress_ms,
  suppress_poll_ms, zero_rate, epsilon_max, dispatch_rate_epsilon,
}

abbrev pub valid_config_keys : List String
valid_config_keys =
    cooloff_key ∷ backlog_threshold_key ∷ max_lifetime_key ∷ epsilon_key ∷ poll_interval_key
    ∷ confirm_key ∷ suppress_key ∷ suppress_poll_key ∷ []

pub data ConfigError (F : Float64) : Type 0 where
  unknown_key : ConfigError F
  bad_field : FieldError F → ConfigError F
  poll_below_cooloff epsilon_above_max confirm_within_poll : ConfigError F
  no_suppress_poll suppress_within_poll : ConfigError F
  requires_epsilon : String → ConfigError F

above : (a b : ℤ) → leb_ℤ a b ≡ false → b <ℤ a
above a b h = ground arith

module _ (F : Float64) where
  abbrev fail_if : Bool → ConfigError F → Option (ConfigError F)
  fail_if b e = if b then some e else none

  abbrev field_error : Option (FieldError F) → Option (ConfigError F)
  field_error none = none
  field_error (some e) = some (bad_field e)

  abbrev int_field : ScalingAlgorithmConfig F → String → ℤ → Option (ConfigError F)
  int_field config k low = field_error (validate_int64_in_map F config k low)

  abbrev configured_epsilon : ScalingAlgorithmConfig F → F.Carrier
  configured_epsilon config = get_float64_from_map F config epsilon_key (zero_rate F)

  -- A key that only a configured band may have; a nil value counts as absent.
  abbrev pub is_set : Option (Value F) → Bool
  is_set none = false
  is_set (some null) = false
  is_set (some v) = true

  unfoldable pub field_checks : Map (Value F) → List (Option (ConfigError F))
  field_checks m =
      let config = some m in
      fail_if (any (λ e. not (contains valid_config_keys e.0)) m) unknown_key
      ∷ int_field config cooloff_key (pos 0)
      ∷ int_field config backlog_threshold_key (pos 0)
      ∷ int_field config max_lifetime_key (pos 0)
      ∷ field_error (validate_float64_in_map F config epsilon_key (F.of_int (pos 0)))
      ∷ int_field config poll_interval_key (pos 10000)
      ∷ int_field config confirm_key (pos 0)
      ∷ int_field config suppress_key (pos 0)
      ∷ int_field config suppress_poll_key (pos 0)
      ∷ fail_if
          (ltb_ℤ (pos 0) (cooloff_ms F config)
            && ltb_ℤ (poll_interval_ms F config) (cooloff_ms F config))
          poll_below_cooloff
      ∷ []

  unfoldable pub band_checks : Map (Value F) → List (Option (ConfigError F))
  band_checks m =
      let config = some m in
      fail_if (F.lt (epsilon_max F) (configured_epsilon config)) epsilon_above_max
      ∷ fail_if (leb_ℤ (confirm_ms F config) (poll_interval_ms F config)) confirm_within_poll
      ∷ fail_if (leb_ℤ (suppress_poll_ms F config) (pos 0)) no_suppress_poll
      ∷ fail_if (leb_ℤ (suppress_ms F config) (suppress_poll_ms F config)) suppress_within_poll
      ∷ []

  unfoldable pub no_band_checks : Map (Value F) → List (Option (ConfigError F))
  no_band_checks m =
      fail_if (is_set (lookup confirm_key m)) (requires_epsilon confirm_key)
      ∷ fail_if (is_set (lookup suppress_key m)) (requires_epsilon suppress_key)
      ∷ fail_if (is_set (lookup suppress_poll_key m)) (requires_epsilon suppress_poll_key)
      ∷ []

  -- `none` is no error.
  unfoldable pub validate_config : ScalingAlgorithmConfig F → Option (ConfigError F)
  unfolding field_checks band_checks no_band_checks
  validate_config none = none
  validate_config (some m) = first_some (
      first_some (field_checks m)
      ∷ first_some (
          if F.lt (zero_rate F) (configured_epsilon (some m))
          then band_checks m
          else no_band_checks m)
      ∷ [])

  -- The times that the detector and the polls rely on.
  pub record IsCoherent (config : ScalingAlgorithmConfig F) : Type 0 where
    pub poll : (cooloff_ms F config ≤ℤ pos 0) ⊎ (cooloff_ms F config ≤ℤ poll_interval_ms F config)
    pub band :
        F.lt (zero_rate F) (configured_epsilon config) ≡ true
        → (F.lt (epsilon_max F) (configured_epsilon config) ≡ false)
          × (poll_interval_ms F config <ℤ confirm_ms F config)
          × (pos 0 <ℤ suppress_poll_ms F config)
          × (suppress_poll_ms F config <ℤ suppress_ms F config)
    pub no_band :
        F.lt (zero_rate F) (configured_epsilon config) ≡ false
        → dispatch_rate_epsilon F config ≡ zero_rate F

  poll_of :
      (cooloff interval : ℤ) (e : ConfigError F)
      → fail_if (ltb_ℤ (pos 0) cooloff && ltb_ℤ interval cooloff) e ≡ none
      → (cooloff ≤ℤ pos 0) ⊎ (cooloff ≤ℤ interval)
  poll_of cooloff interval e h = elim (Bool-cases (ltb_ℤ (pos 0) cooloff)) [
    | inl some_cooloff ↦ inr (ground arith)
    | inr none_set ↦ inl (ground arith)
  ]

  passed : (b : Bool) (e : ConfigError F) → fail_if b e ≡ none → b ≡ false
  passed true e h = cc
  passed false e h = refl

  -- A configuration that passes ValidateConfig has a cooloff, where there is one, of at most the time
  -- between two polls; and its detector, where it is on, has a band of a tenth at most, confirms over
  -- more than one poll, and suppresses for longer than the polls under suppression are apart.
  pub validate_config-IsCoherent :
      (m : Map (Value F)) → validate_config (some m) ≡ none → IsCoherent (some m)
  unfolding validate_config dispatch_rate_epsilon
  validate_config-IsCoherent m h =
      let checks =
        first_some-none
          (first_some (field_checks m)
            ∷ first_some (
                if F.lt (zero_rate F) (configured_epsilon (some m))
                then band_checks m
                else no_band_checks m)
            ∷ [])
          h in
      let fields = first_some-none (field_checks m) checks.0 in
      elim (Bool-cases (F.lt (zero_rate F) (configured_epsilon (some m)))) [
        | inl on ↦
            let band = first_some-none (band_checks m) (rw on at checks.1.0) in
            record {
              poll =
                  poll_of (cooloff_ms F (some m)) (poll_interval_ms F (some m)) poll_below_cooloff
                    fields.1.1.1.1.1.1.1.1.1.0;
              band = λ o. (
                passed _ _ band.0,
                above (confirm_ms F (some m)) (poll_interval_ms F (some m)) (passed _ _ band.1.0),
                above (suppress_poll_ms F (some m)) (pos 0) (passed _ _ band.1.1.0),
                above (suppress_ms F (some m)) (suppress_poll_ms F (some m))
                    (passed _ _ band.1.1.1.0),
              );
              no_band = λ off. absurd (ground arith);
            }
        | inr off ↦ record {
          poll =
              poll_of (cooloff_ms F (some m)) (poll_interval_ms F (some m)) poll_below_cooloff
                fields.1.1.1.1.1.1.1.1.1.0;
          band = λ on. absurd (ground arith);
          no_band = λ o. rw off refl;
        }
      ]
