-- ===== src/Activities/ValidateSpec.antt =====
-- wci/workflow/activities.go: ValidateSpec.
pub mod Ready
use Prim.Native.String.{◌++◌ as ◌+text◌}
use mathlib.Core.List.{Memᴰ}
use temporal_auto_scaled_wor.Prelude.{
  if◌then◌else◌, ℤ, Bool, true, false, not, ◌&&◌, String, str_eq, Option, none, some, List, [], ◌∷◌,
  any, is_empty, Map, Float64, Result, ok, err, ◌>>=◌, >>=-eq-ok, ◌≡◌, refl, sym, ap, subst, ◌∙◌,
  arith, Bool-cases, Result-cases, ◌⊎◌, inl, inr,
}
use temporal_auto_scaled_wor.Iface.Types.{
  Value, ScalingAlgorithmConfig, ScalingAlgorithmSpec, ScalingGroupSpec, ComputeProviderSpec,
  Groups,
}
use temporal_auto_scaled_wor.Iface.Spec.{contains}
use temporal_auto_scaled_wor.ComputeProvider.{
  LaunchStrategy, invoke, worker_set, other_strategy, ProviderFailure, ComputeProvider,
  get_compute_provider,
}
use temporal_auto_scaled_wor.Scaling.Registry.{
  AlgorithmError, ScalingAlgorithm, get_scaling_algorithm,
}
use temporal_auto_scaled_wor.Activities.{Activities, ActivityError, app_error, other_error}

abbrev pub invalid : String → String → ActivityError
invalid key text = app_error "InvalidArgument" ((key +text ": ") +text text)

abbrev pub with_type : String → String → String
with_type text type = (text +text type) +text "'"

abbrev pub no_provider : String → String
no_provider type = with_type "Could not instantiate compute provider with type '" type

abbrev pub no_algorithm : String → String
no_algorithm type = with_type "Could not instantiate scaling algorithm with type '" type

abbrev incompatible : String → String → String
incompatible algorithm provider =
    with_type
      (with_type "Scaling Algorithm '" algorithm +text " is not compatible with compute provider '")
      provider

-- A LaunchStrategy is a text.
abbrev pub strategy_text : LaunchStrategy → String
strategy_text invoke = "invoke"
strategy_text worker_set = "worker-set"
strategy_text (other_strategy s) = s

abbrev pub contains_strategy : List LaunchStrategy → LaunchStrategy → Bool
contains_strategy xs s = any (λ x. str_eq (strategy_text x) (strategy_text s)) xs

-- The value of a call, with its failure put into words.
abbrev pub or_fail {ℓ κ} :
    {E : Type κ} {A : Type ℓ} → (E → ActivityError) → Result E A → Result ActivityError A
or_fail f (err e) = err (f e)
or_fail f (ok a) = ok a

-- A value that may be nil.
abbrev pub or_missing {ℓ} : {A : Type ℓ} → ActivityError → Option A → Result ActivityError A
or_missing e none = err e
or_missing e (some a) = ok a

-- A check whose answer is an error or nil.
abbrev pub none_of {κ} :
    {E : Type κ} → (E → ActivityError) → Option E → Result ActivityError (Unit {0})
none_of f none = ok tt
none_of f (some e) = err (f e)

abbrev pub unless : Bool → ActivityError → Result ActivityError (Unit {0})
unless b e = if b then ok tt else err e

module _ {F : Float64} where
  abbrev pub entries_of : ScalingAlgorithmConfig F → Map (Value F)
  entries_of none = []
  entries_of (some m) = m

  abbrev pub check_provider :
      List String
      → String
      → ComputeProvider F
      → ScalingAlgorithmConfig F
      → Result ActivityError (Unit {0})
  check_provider skip key p c =
      if contains skip key
      then ok tt
      else none_of (λ e. invalid key e.message) (p.validate_config (entries_of c))

module _ {F : Float64} {P : Type 0} where
  unfoldable pub find_provider :
      Activities F P
      → (String → ActivityError)
      → ActivityError
      → ComputeProviderSpec P
      → Result ActivityError (ComputeProvider F)
  find_provider a failed missing c =
      or_fail (λ e. failed e.message)
        (get_compute_provider a.enabled_providers c.provider_type a.providers)
      >>= or_missing missing

  abbrev pub check_scaling_with :
      Activities F P
      → String
      → String
      → ComputeProvider F
      → ScalingAlgorithmSpec P
      → ScalingAlgorithm F
      → Result ActivityError (Unit {0})
  check_scaling_with a key provider p s g = or_fail (invalid key) (a.decode s.config) >>= λ c.
      none_of (invalid key) (g.validate_config c) >>= λ _.
      unless (contains_strategy g.compatible_launch_strategies p.launch_strategy)
        (invalid key (incompatible s.scaling_algorithm provider))

  unfoldable pub check_scaling :
      Activities F P
      → String
      → String
      → ComputeProvider F
      → Option (ScalingAlgorithmSpec P)
      → Result ActivityError (Unit {0})
  check_scaling a key provider p none = ok tt
  check_scaling a key provider p (some s) =
      or_fail (invalid key)
        (get_scaling_algorithm a.enabled_algorithms s.scaling_algorithm a.registry)
      >>= or_missing (invalid key (no_algorithm s.scaling_algorithm))
      >>= check_scaling_with a key provider p s

  -- One round of the loop over the groups.
  unfoldable pub check_entry :
      Activities F P → List String → String × ScalingGroupSpec P → Result ActivityError (Unit {0})
  check_entry a skip (key, entry) =
      unless (not (not (is_empty entry.region_ids) && str_eq a.region_id ""))
        (invalid key "region_ids is not supported because this server has no region configured")
      >>= λ _.
          find_provider a (invalid key) (invalid key (no_provider entry.compute.provider_type))
            entry.compute
          >>= λ p. or_fail (invalid key) (a.decode entry.compute.config) >>= λ c.
              check_provider skip key p c >>= λ _.
              check_scaling a key entry.compute.provider_type p entry.scaling

  unfoldable pub check_entries :
      Activities F P → List String → Groups P → Result ActivityError (Unit {0})
  check_entries a skip [] = ok tt
  check_entries a skip (entry ∷ rest) = check_entry a skip entry >>= λ _. check_entries a skip rest

  -- `none` is a nil request or specification.
  unfoldable pub validate_spec :
      Activities F P → Option (Groups P) → List String → Result ActivityError (Unit {0})
  validate_spec a none skip = err (app_error "InvalidArgument" "Invalid activity request")
  validate_spec a (some groups) skip = check_entries a skip groups
