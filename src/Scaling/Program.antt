-- ===== src/Scaling/Program.antt =====
-- The algorithms of no_sync_match.go and rate_based.go behind the interface, and their registration
-- (the two `init` functions, in the order of the files' names).
use temporal_auto_scaled_wor.Prelude.{
  String, str_eq, eq_iff, Bool, true, false, Option, none, some, List, [], ◌∷◌, Map, lookup, insert,
  if◌then◌else◌, Float64, Result, ok, err, ◌≡◌, refl, ap, subst, Bool-cases, inl, inr, ◌∙◌, arith,
}
use temporal_auto_scaled_wor.Iface.Spec.{contains}
use temporal_auto_scaled_wor.ComputeProvider.{invoke, worker_set}
use temporal_auto_scaled_wor.Scaling.Registry.{
  AlgorithmError, ScalingAlgorithm, TaskAddResponse, Registry, empty_registry,
  register_scaling_algorithm, add_defaults, get_default_scaling_algorithm_for_compute_provider,
  get_scaling_algorithm_without_validation, default_of,
}
use temporal_auto_scaled_wor.Scaling.NoSync
use temporal_auto_scaled_wor.Scaling.NoSync.Config as NoSyncConfig
use temporal_auto_scaled_wor.Scaling.RateBased.Decisions
use temporal_auto_scaled_wor.Scaling.RateBased.Decisions.{DeferredError}
use temporal_auto_scaled_wor.Scaling.RateBased.Config as RateConfig

module _ (F : Float64) where
  -- An error is known by its presence; its text is left out.
  abbrev pub refused {ℓ} : {E : Type ℓ} → Option E → Option AlgorithmError
  refused none = none
  refused (some e) = some "invalid config"

  abbrev deferred_answer :
      Result (DeferredError F String) (TaskAddResponse F)
      → Result AlgorithmError (Option (TaskAddResponse F))
  deferred_answer (ok a) = ok (some a)
  deferred_answer (err e) = err "deferred decision failed"

  abbrev pub no_sync : ScalingAlgorithm F
  no_sync = record {
    compatible_launch_strategies = invoke ∷ [];
    validate_config = λ config. refused (NoSyncConfig.validate_config F config);
    process_task_add =
        λ now config status r. ok (some (NoSync.process_task_add F now config status r));
    process_deferred_scaling_decision =
        λ config status r getter. ok (some (NoSync.process_deferred_scaling_decision F status));
    process_metrics_poll =
        λ now config status s. ok (NoSync.process_metrics_poll F now config status s);
    task_queue_registration_actions =
        λ config status. ok (NoSync.task_queue_registration_actions F status);
    inactive_group_actions = λ config status. ok (NoSync.inactive_group_actions F);
  }

  abbrev pub rate_based : ScalingAlgorithm F
  rate_based = record {
    compatible_launch_strategies = worker_set ∷ [];
    validate_config = λ config. refused (RateConfig.validate_config F config);
    process_task_add =
        λ now config status r. ok (some (Decisions.process_task_add F now config status r));
    process_deferred_scaling_decision = λ config status r getter.
        deferred_answer (Decisions.process_deferred_scaling_decision F config status getter);
    process_metrics_poll =
        λ now config status s. ok (Decisions.process_metrics_poll F now config status s);
    task_queue_registration_actions =
        λ config status. ok (Decisions.task_queue_registration_actions F config status);
    inactive_group_actions = λ config status. ok (Decisions.inactive_group_actions F status);
  }

  abbrev pub register_no_sync : Registry F → Registry F
  register_no_sync =
      register_scaling_algorithm "no-sync" (ok no_sync)
        ("aws-lambda" ∷ "aws-agentcore" ∷ "subprocess" ∷ [])

  abbrev pub register_rate_based : Registry F → Registry F
  register_rate_based =
      register_scaling_algorithm "rate-based" (ok rate_based)
        ("aws-ecs" ∷ "k8s" ∷ "gcp-cloud-run" ∷ [])

  abbrev pub program_registry : Registry F
  program_registry = register_rate_based (register_no_sync (empty_registry F))

  -- What the registry answers for a provider without a scaling specification.
  abbrev pub default_algorithm : String → Option (ScalingAlgorithm F)
  default_algorithm p =
      if contains ("aws-lambda" ∷ "aws-agentcore" ∷ "subprocess" ∷ []) p
      then some no_sync
      else if contains ("aws-ecs" ∷ "k8s" ∷ "gcp-cloud-run" ∷ []) p
      then some rate_based
      else none

  abbrev other_registry : Registry F
  other_registry = register_no_sync (register_rate_based (empty_registry F))

  abbrev invoking : List String
  invoking = "aws-lambda" ∷ "aws-agentcore" ∷ "subprocess" ∷ []

  abbrev scaling : List String
  scaling = "aws-ecs" ∷ "k8s" ∷ "gcp-cloud-run" ∷ []

  -- The default type of a provider, by two tests.
  abbrev named : Bool → Bool → Option String
  named true b = some "no-sync"
  named false true = some "rate-based"
  named false false = none

  abbrev of_tests : Bool → Bool → Option (ScalingAlgorithm F)
  of_tests a b = if a then some no_sync else if b then some rate_based else none

  abbrev first_order : Map String
  first_order =
      ("aws-lambda", "no-sync")
      ∷ ("aws-agentcore", "no-sync")
      ∷ ("subprocess", "no-sync")
      ∷ ("aws-ecs", "rate-based")
      ∷ ("k8s", "rate-based")
      ∷ ("gcp-cloud-run", "rate-based")
      ∷ []

  abbrev second_order : Map String
  second_order =
      ("aws-ecs", "rate-based")
      ∷ ("k8s", "rate-based")
      ∷ ("gcp-cloud-run", "rate-based")
      ∷ ("aws-lambda", "no-sync")
      ∷ ("aws-agentcore", "no-sync")
      ∷ ("subprocess", "no-sync")
      ∷ []

  program_defaults : program_registry.defaults ≡ first_order
  unfolding register_scaling_algorithm add_defaults lookup insert
  program_defaults = refl

  other_defaults : other_registry.defaults ≡ second_order
  unfolding register_scaling_algorithm add_defaults lookup insert
  other_defaults = refl

  first_named :
      (p : String) → lookup p first_order ≡ named (contains invoking p) (contains scaling p)
  unfolding lookup
  first_named p = ground arith

  abbrev Agrees : String → Type 0
  Agrees p = lookup p second_order ≡ named (contains invoking p) (contains scaling p)

  second_named :
      (p : String) → lookup p second_order ≡ named (contains invoking p) (contains scaling p)
  unfolding lookup
  second_named p = elim (Bool-cases (str_eq "aws-lambda" p)) [
    | inl same ↦ subst Agrees ((eq_iff "aws-lambda" p).0 same) refl
    | inr a ↦ elim (Bool-cases (str_eq "aws-agentcore" p)) [
      | inl same ↦ subst Agrees ((eq_iff "aws-agentcore" p).0 same) refl
      | inr b ↦ elim (Bool-cases (str_eq "subprocess" p)) [
        | inl same ↦ subst Agrees ((eq_iff "subprocess" p).0 same) refl
        | inr c ↦ ground (arith, a, b, c)
      ]
    ]
  ]

  program_algorithms : (a b : Bool) → default_of (named a b) program_registry ≡ ok (of_tests a b)
  unfolding get_scaling_algorithm_without_validation register_scaling_algorithm lookup insert
  program_algorithms true b = refl
  program_algorithms false true = refl
  program_algorithms false false = refl

  other_algorithms : (a b : Bool) → default_of (named a b) other_registry ≡ ok (of_tests a b)
  unfolding get_scaling_algorithm_without_validation register_scaling_algorithm lookup insert
  other_algorithms true b = refl
  other_algorithms false true = refl
  other_algorithms false false = refl

  -- The two registrations may run in either order: for every provider type the registry answers the
  -- same, which is no-sync for the providers that invoke workers, rate-based for those with worker
  -- sets, and no algorithm for any other.
  program_registry_default :
      (p : String)
      → (get_default_scaling_algorithm_for_compute_provider p program_registry
          ≡ ok (default_algorithm p))
        × (get_default_scaling_algorithm_for_compute_provider p
              (register_no_sync (register_rate_based (empty_registry F)))
            ≡ ok (default_algorithm p))
  unfolding get_default_scaling_algorithm_for_compute_provider
  program_registry_default p = (
    ap (λ m. default_of (lookup p m) program_registry) program_defaults
        ∙ ap (λ o. default_of o program_registry) (first_named p)
        ∙ program_algorithms (contains invoking p) (contains scaling p),
    ap (λ m. default_of (lookup p m) other_registry) other_defaults
        ∙ ap (λ o. default_of o other_registry) (second_named p)
        ∙ other_algorithms (contains invoking p) (contains scaling p),
  )
