-- ===== src/Activities/Registration/Disturbance.antt =====
-- InvokeWorkersToRegisterTaskQueues: which groups it touches, and the statuses that it leaves.
use mathlib.Core.List.{Memᴰ}
use temporal_auto_scaled_wor.Prelude.{true, false, String, List, [], Float64, Result, ok, err, ◌≡◌}
use temporal_auto_scaled_wor.Iface.Types.{TaskQueueType, ScalingGroupSpec, Groups}
use temporal_auto_scaled_wor.ComputeProvider.{ComputeProvider}
use temporal_auto_scaled_wor.Activities.{Activities, DescribeError}
use temporal_auto_scaled_wor.Activities.Registration.{
  ProviderCall, called_key, Stopped, Progress, has_to_register,
}

module _ {P : Type 0} where
  -- A call for a group of the specification that has types to register.
  abbrev pub IsNeeded : Groups P → String → List TaskQueueType → ProviderCall → Type 0
  IsNeeded groups region_id registered c =
      (g : ScalingGroupSpec P) × Memᴰ (called_key c, g) groups
      × (has_to_register groups region_id registered (called_key c) ≡ true)

module _ {ℓ} {A : Type ℓ} where
  -- The calls of an answer, whether it succeeds or not.
  abbrev pub calls_of : (A → List ProviderCall) → Result Stopped A → List ProviderCall
  calls_of f (err s) = s.calls
  calls_of f (ok a) = f a

abbrev itself : List ProviderCall → List ProviderCall
itself calls = calls

-- The types that the server knows of, none if it does not answer.
abbrev pub known_types : Result DescribeError (List TaskQueueType) → List TaskQueueType
known_types (err e) = []
known_types (ok ts) = ts

-- The answer of a server that is out of capacity stops the activity.
abbrev pub IsThrottled : Result DescribeError (List TaskQueueType) → Type 0
IsThrottled (err e) = e.is_resource_exhausted ≡ true
IsThrottled (ok ts) = false ≡ true

module _ {F : Float64} where
  abbrev pub progress_calls : Progress F → List ProviderCall
  progress_calls p = p.calls
