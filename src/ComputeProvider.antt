-- ===== src/ComputeProvider.antt =====
-- wci/workflow/compute_provider/registry.go and errors.go: the interface of the compute providers
-- and their registry. What a provider does in its cloud is behind the interface.
use temporal_auto_scaled_wor.Prelude.{
  ℤ, String, Option, none, some, List, Map, lookup, insert_new, if◌then◌else◌, Float64, Result, ok,
  err,
}
use temporal_auto_scaled_wor.Iface.Types.{Value}
use temporal_auto_scaled_wor.Iface.Spec.{contains}

pub data LaunchStrategy : Type 0 where
  invoke worker_set : LaunchStrategy
  other_strategy : String → LaunchStrategy

pub data FailureClass : Type 0 where
  unclassified rejected not_found access_denied unavailable throttled internal conflict :
      FailureClass

-- An error, with the class that its provider gives it, if it is a ProviderError.
pub record ProviderFailure : Type 0 where
  pub class : Option FailureClass
  pub message : String

-- The operations of a provider, with the answer of its cloud: `none` is no error.
pub record ComputeProvider (F : Float64) : Type 0 where
  pub launch_strategy : LaunchStrategy
  pub validate_config : Map (Value F) → Option ProviderFailure
  pub invoke_worker : Map (Value F) → Option ProviderFailure
  pub update_worker_set_size : Map (Value F) → ℤ → Option ProviderFailure

module _ (F : Float64) where
  -- The constructors by their type, each with its answer.
  abbrev pub Providers : Type 0
  Providers = Map (Result ProviderFailure (ComputeProvider F))

module _ {F : Float64} where
  -- The first registration of a type stays.
  unfoldable pub register_compute_provider :
      String → Result ProviderFailure (ComputeProvider F) → Providers F → Providers F
  register_compute_provider k ctor m = insert_new k ctor (lookup k m) m

  abbrev pub construct :
      Option (Result ProviderFailure (ComputeProvider F))
      → Result ProviderFailure (Option (ComputeProvider F))
  construct none = ok none
  construct (some (ok p)) = ok (some p)
  construct (some (err e)) = err e

  -- `none` is the nil provider of a type that is not enabled or not registered.
  unfoldable pub get_compute_provider :
      List String → String → Providers F → Result ProviderFailure (Option (ComputeProvider F))
  get_compute_provider enabled k m = if contains enabled k then construct (lookup k m) else ok none
