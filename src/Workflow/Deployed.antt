-- ===== src/Workflow/Deployed.antt =====
-- workflow.go with activities.go and the algorithms: what an update that succeeds establishes.
use mathlib.Core.List.{Memᴰ}
use temporal_auto_scaled_wor.Prelude.{String, Option, some, List, Map, Float64, Result, ok, ◌≡◌}
use temporal_auto_scaled_wor.Iface.Types.{Value, Groups, ScalingGroupSpec, ScalingAlgorithmSpec}
use temporal_auto_scaled_wor.Iface.Spec.{validate}
use temporal_auto_scaled_wor.Scaling.Program.{program_registry}
use temporal_auto_scaled_wor.Activities.{Activities}
use temporal_auto_scaled_wor.Activities.ValidateSpec.{validate_spec}
use temporal_auto_scaled_wor.Activities.ValidateSpec.Ready.{IsReady}
use temporal_auto_scaled_wor.Activities.Program.{IsConfigured}
use temporal_auto_scaled_wor.Workflow.{HandlerError, Env}

module _ {P : Type 0} where
  abbrev of_groups : Groups P → Result HandlerError (Option (Groups P))
  of_groups m = ok (some m)

module _ {F : Float64} {P : Type 0} where
  -- A success of the validation activity is one of its code, in a process with the program's
  -- algorithms.
  abbrev pub IsValidateActivity : Env F P → Activities F P → Type 0
  IsValidateActivity e a =
      (a.registry ≡ program_registry F)
      × ((groups : Groups P) (skip : List String)
          → e.validate_spec groups skip ≡ ok tt
          → validate_spec a (some groups) skip ≡ ok tt)

  -- A specification fit for use: it passes Validate; each group has an enabled provider, and if it
  -- names an algorithm, one that can drive the provider, with a configuration that keeps to the rules
  -- of that algorithm. The providers' own checks may be skipped for some groups.
  pub record IsDeployable (a : Activities F P) (groups : Groups P) : Type 0 where
    pub valid : validate (some groups) ≡ ok tt
    pub skipped : List String
    pub ready : (x : String × ScalingGroupSpec P) → Memᴰ x groups → IsReady a skipped x
    pub configured :
        (key : String) (g : ScalingGroupSpec P) (s : ScalingAlgorithmSpec P) (m : Map (Value F))
        → Memᴰ (key, g) groups
        → g.scaling ≡ some s
        → a.decode s.config ≡ ok (some m)
        → IsConfigured s m
