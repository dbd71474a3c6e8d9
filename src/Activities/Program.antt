-- ===== src/Activities/Program.antt =====
-- ValidateSpec with the algorithms of the program: what it establishes of the configurations.
use mathlib.Core.List.{Memᴰ}
use temporal_auto_scaled_wor.Prelude.{
  Bool, true, false, not, String, Option, none, some, List, Map, lookup, insert, Float64, Result,
  ok, if◌then◌else◌, ◌≡◌, refl, sym, ap, subst, ◌∙◌,
}
use temporal_auto_scaled_wor.Iface.Types.{
  Value, ScalingAlgorithmConfig, ScalingAlgorithmSpec, ScalingGroupSpec, Groups,
}
use temporal_auto_scaled_wor.Scaling.Registry.{
  AlgorithmError, ScalingAlgorithm, is_enabled, get_scaling_algorithm, register_scaling_algorithm,
}
use temporal_auto_scaled_wor.Scaling.Program.{refused, no_sync, rate_based, program_registry}
use temporal_auto_scaled_wor.Scaling.NoSync.Config.{IsCoherent, validate_config-IsCoherent}
use temporal_auto_scaled_wor.Scaling.RateBased.Config.{IsValid, validate_config-IsValid}
use temporal_auto_scaled_wor.Scaling.NoSync.Config as NoSyncConfig
use temporal_auto_scaled_wor.Scaling.RateBased.Config as RateConfig
use temporal_auto_scaled_wor.Activities.{Activities}
use temporal_auto_scaled_wor.Activities.ValidateSpec.{validate_spec}
use temporal_auto_scaled_wor.Activities.ValidateSpec.Ready.{HasScaling, validate_spec-IsReady}

module _ (F : Float64) where
  abbrev if_enabled :
      Bool → ScalingAlgorithm F → Result AlgorithmError (Option (ScalingAlgorithm F))
  if_enabled b g = if not b then ok none else ok (some g)

  found_if : (b : Bool) (g h : ScalingAlgorithm F) → if_enabled b g ≡ ok (some h) → g ≡ h
  found_if true g h e = cc
  found_if false g h e = cc

  program_rate_based :
      (enabled : Option (List String)) (g : ScalingAlgorithm F)
      → get_scaling_algorithm enabled "rate-based" (program_registry F) ≡ ok (some g)
      → rate_based F ≡ g
  unfolding get_scaling_algorithm register_scaling_algorithm lookup insert
  program_rate_based enabled g h = found_if (is_enabled enabled "rate-based") (rate_based F) g h

  program_no_sync :
      (enabled : Option (List String)) (g : ScalingAlgorithm F)
      → get_scaling_algorithm enabled "no-sync" (program_registry F) ≡ ok (some g)
      → no_sync F ≡ g
  unfolding get_scaling_algorithm register_scaling_algorithm lookup insert
  program_no_sync enabled g h = found_if (is_enabled enabled "no-sync") (no_sync F) g h

  refused-none : {E : Type 0} (o : Option E) → refused F o ≡ none → o ≡ none
  refused-none none h = refl
  refused-none (some e) h = cc

  abbrev decoded_as : ScalingAlgorithmConfig F → Result String (ScalingAlgorithmConfig F)
  decoded_as c = ok c

  config_same : (c d : ScalingAlgorithmConfig F) → decoded_as c ≡ decoded_as d → d ≡ c
  config_same c d h = cc

module _ {F : Float64} {P : Type 0} where
  -- A configuration of either algorithm keeps to that algorithm's own rules.
  abbrev pub IsConfigured : ScalingAlgorithmSpec P → Map (Value F) → Type 0
  IsConfigured s m =
      (s.scaling_algorithm ≡ "rate-based" → IsValid F (some m))
      × (s.scaling_algorithm ≡ "no-sync" → IsCoherent F (some m))

  scaling-IsConfigured :
      (a : Activities F P) (s : ScalingAlgorithmSpec P) (g : ScalingAlgorithm F) (m : Map (Value F))
      → a.registry ≡ program_registry F
      → get_scaling_algorithm a.enabled_algorithms s.scaling_algorithm a.registry ≡ ok (some g)
      → g.validate_config (some m) ≡ none
      → IsConfigured s m
  scaling-IsConfigured a s g m program found valid =
      let known =
        ap (get_scaling_algorithm a.enabled_algorithms s.scaling_algorithm) (sym program) ∙ found in
      (
        λ name.
            let same = program_rate_based F a.enabled_algorithms g (
              ap (λ k. get_scaling_algorithm a.enabled_algorithms k (program_registry F)) (sym name)
              ∙ known) in
            validate_config-IsValid F m (
              refused-none F (RateConfig.validate_config F (some m))
                (ap (λ h. h.validate_config (some m)) same ∙ valid)),
        λ name.
            let same = program_no_sync F a.enabled_algorithms g (
              ap (λ k. get_scaling_algorithm a.enabled_algorithms k (program_registry F)) (sym name)
              ∙ known) in
            validate_config-IsCoherent F m (
              refused-none F (NoSyncConfig.validate_config F (some m))
                (ap (λ h. h.validate_config (some m)) same ∙ valid)),
      )

  -- With the program's algorithms registered, a specification that passes ValidateSpec gives each
  -- group that names rate-based a configuration with ordered int32 counts, fractions for the
  -- smoothing factor and the target utilization, a positive capacity and cooldowns within a poll;
  -- and each that names no-sync one whose cooloff is within a poll and whose detector, where it is
  -- on, has a narrow band, confirms over more than a poll and suppresses beyond one. The
  -- configuration is given as a map.
  pub validate_spec-IsConfigured :
      (a : Activities F P) (groups : Groups P) (skip : List String) (key : String)
      (entry : ScalingGroupSpec P) (s : ScalingAlgorithmSpec P) (m : Map (Value F))
      → a.registry ≡ program_registry F
      → validate_spec a (some groups) skip ≡ ok tt
      → Memᴰ (key, entry) groups
      → entry.scaling ≡ some s
      → a.decode s.config ≡ ok (some m)
      → IsConfigured s m
  validate_spec-IsConfigured a groups skip key entry s m program h i given decoded =
      let (region, p, pc, provider, settings, checked, scaled) =
        validate_spec-IsReady a groups skip (key, entry) h i in
      let (g, c, found, decoded', valid, fits) = subst (HasScaling a p) given scaled in
      scaling-IsConfigured a s g m program found
        (ap g.validate_config (config_same F c (some m) (sym decoded' ∙ decoded)) ∙ valid)
