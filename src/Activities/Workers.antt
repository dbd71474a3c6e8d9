-- ===== src/Activities/Workers.antt =====
-- wci/workflow/activities.go: InvokeWorker and UpdateWorkerSetSize, which act on one provider.
use temporal_auto_scaled_wor.Prelude.{
  ℤ, String, Option, none, some, Map, Float64, Result, ok, err, ◌>>=◌,
}
use temporal_auto_scaled_wor.Iface.Types.{Value, ComputeProviderSpec}
use temporal_auto_scaled_wor.ComputeProvider.{ComputeProvider}
use temporal_auto_scaled_wor.Activities.{Activities, ActivityError, app_error, other_error}
use temporal_auto_scaled_wor.Activities.ValidateSpec.{
  or_fail, none_of, find_provider, no_provider, entries_of,
}

abbrev invalid_argument : String → ActivityError
invalid_argument text = app_error "InvalidArgument" text

module _ {F : Float64} {P : Type 0} where
  -- The provider and its configuration, with the error for an unknown provider.
  abbrev prepared :
      Activities F P
      → ActivityError
      → ComputeProviderSpec P
      → Result ActivityError (ComputeProvider F × Map (Value F))
  prepared a missing c = find_provider a other_error missing c >>= λ p.
      or_fail invalid_argument (a.decode c.config) >>= λ config. ok (p, entries_of config)

  -- `none` is a nil request or configuration. An error without a type is one that the code does not
  -- make an application error.
  unfoldable pub invoke_worker :
      Activities F P → Option (ComputeProviderSpec P) → Result ActivityError (Unit {0})
  invoke_worker a none = err (other_error "Invalid activity request")
  invoke_worker a (some c) = prepared a (invalid_argument (no_provider c.provider_type)) c >>= λ q.
      none_of (λ e. app_error "InvokeWorkerFailed" e.message) (q.0.invoke_worker q.1)

  unfoldable pub update_worker_set_size :
      Activities F P → Option (ComputeProviderSpec P) → ℤ → Result ActivityError (Unit {0})
  update_worker_set_size a none size = err (other_error "Invalid activity request")
  update_worker_set_size a (some c) size =
      prepared a (other_error (no_provider c.provider_type)) c >>= λ q.
      none_of (λ e. app_error "UpdateWorkerSetSizeFailed" e.message)
        (q.0.update_worker_set_size q.1 size)
