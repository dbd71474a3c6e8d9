-- ===== src/Workflow/Validation.antt =====
-- wci/workflow/validate_workflow.go: the workflow that validates a specification without an instance.
use temporal_auto_scaled_wor.Prelude.{
  ℕ, leb, if◌then◌else◌, Bool, not, ◌||◌, String, Option, none, some, List, [], ◌∷◌, is_empty, Map,
  lookup, insert, Result, ok, err, ◌>>=◌, ◌≡◌,
}
use temporal_auto_scaled_wor.Iface.Types.{ScalingGroupSpec, ScalingGroupSpecUpdate, Groups}
use temporal_auto_scaled_wor.Iface.SpecUpdate.{keys}
use temporal_auto_scaled_wor.Iface.Spec.{SpecError, contains, validate}
use temporal_auto_scaled_wor.Activities.{ActivityError}
use temporal_auto_scaled_wor.Activities.TaskAdd.{entry_of}

-- Why the workflow fails: an application error of its own, or what the activity answers.
pub data ValidationFailure : Type 0 where
  controller_disabled no_groups : ValidationFailure
  has_update_mask : String → ValidationFailure
  bad_spec : SpecError → ValidationFailure
  rejected : ActivityError → ValidationFailure

-- Before version 1 the flag was not checked.
abbrev pub validate_workflow_enabled : ℕ → Bool → Bool
validate_workflow_enabled version enabled = not (leb 1 version) || enabled

abbrev pub activity_result : Result ActivityError (Unit {0}) → Result ValidationFailure (Unit {0})
activity_result (err e) = err (rejected e)
activity_result (ok u) = ok u

abbrev pub spec_result : Result SpecError (Unit {0}) → Result ValidationFailure (Unit {0})
spec_result (err e) = err (bad_spec e)
spec_result (ok u) = ok u

module _ {P : Type 0} where
  -- An entry of a Go map, the zero value if there is none.
  abbrev pub update_of : Option (ScalingGroupSpecUpdate P) → ScalingGroupSpecUpdate P
  update_of (some u) = u
  update_of none = record { spec = entry_of none; update_mask = [] }

  unfoldable pub add_groups :
      Map (ScalingGroupSpecUpdate P) → List String → Groups P → Result ValidationFailure (Groups P)
  add_groups updates [] groups = ok groups
  add_groups updates (key ∷ ks) groups =
      let rest = add_groups updates ks (insert key (update_of (lookup key updates)).spec groups) in
      if is_empty (update_of (lookup key updates)).update_mask
      then rest
      else err (has_update_mask key)

  abbrev pub validate_groups :
      (Groups P → Result ActivityError (Unit {0})) → Groups P → Result ValidationFailure (Unit {0})
  validate_groups activity groups =
      spec_result (validate (some groups)) >>= λ _. activity_result (activity groups)

  -- `none` is a nil request or a nil map; `order` is the SDK's DeterministicKeys.
  abbrev pub validate_updates :
      (Groups P → Result ActivityError (Unit {0}))
      → (List String → List String)
      → Option (Map (ScalingGroupSpecUpdate P))
      → Result ValidationFailure (Unit {0})
  validate_updates activity order none = err no_groups
  validate_updates activity order (some updates) =
      add_groups updates (order (keys updates)) [] >>= validate_groups activity

  unfoldable pub validate_spec_workflow :
      ℕ
      → Bool
      → (Groups P → Result ActivityError (Unit {0}))
      → (List String → List String)
      → Option (Map (ScalingGroupSpecUpdate P))
      → Result ValidationFailure (Unit {0})
  validate_spec_workflow version enabled activity order updates =
      if validate_workflow_enabled version enabled
      then validate_updates activity order updates
      else err controller_disabled

  -- What the loop leaves under a key.
  abbrev pub added :
      Map (ScalingGroupSpecUpdate P) → List String → Groups P → String → Option (ScalingGroupSpec P)
  added updates ks groups k =
      if contains ks k then some (update_of (lookup k updates)).spec else lookup k groups

  -- The group that an update gives.
  abbrev pub given : Option (ScalingGroupSpecUpdate P) → Option (ScalingGroupSpec P)
  given none = none
  given (some u) = some u.spec

  -- A specification that the workflow accepts, from its updates.
  pub record IsAccepted (activity : Groups P → Result ActivityError (Unit {0}))
      (updates : Map (ScalingGroupSpecUpdate P)) : Type 0 where
    pub groups : Groups P
    pub valid : validate (some groups) ≡ ok tt
    pub checked : activity groups ≡ ok tt
    pub entries : (k : String) → lookup k groups ≡ given (lookup k updates)
    pub bare :
        (k : String) (u : ScalingGroupSpecUpdate P) → lookup k updates ≡ some u → u.update_mask ≡ []
