-- ===== src/Workflow/DryRun.antt =====
-- workflow.go: a validation request with changes is a dry run.
use temporal_auto_scaled_wor.Prelude.{
  String, false, ◌&&◌, Option, none, some, List, is_empty, Float64, Result, ok, err, first_some, [],
  ◌∷◌, ◌≡◌, refl,
}
use temporal_auto_scaled_wor.Iface.Types.{Groups}
use temporal_auto_scaled_wor.Iface.Spec.{SpecError, validate}
use temporal_auto_scaled_wor.Iface.SpecUpdate.{MaskError}
use temporal_auto_scaled_wor.Activities.{ActivityError, app_error, other_error}
use temporal_auto_scaled_wor.Workflow.{
  HandlerError, ValidateSpecRequest, Runner, Env, ensure_enabled, pre_update_checks,
}
use temporal_auto_scaled_wor.Workflow.Updates.{
  Answer, guarded, dry_run, dry_run_valid, dry_run_outcome, handle_validate_spec,
}

module _ {F : Float64} {P : Type 0} where
  dry_run_outcome_same :
      (e : Env F P) (d : Runner F P) (r : Result ActivityError (Unit {0}))
      → (dry_run_outcome e d false r).1 ≡ d
  dry_run_outcome_same e d (ok u) = refl
  dry_run_outcome_same e d (err (app_error t m)) = refl
  dry_run_outcome_same e d (err (other_error m)) = refl

  dry_run_valid_same :
      (e : Env F P) (d : Runner F P) (v : Result SpecError (Unit {0}))
      (r : Result ActivityError (Unit {0}))
      → (dry_run_valid e d false v r).1 ≡ d
  dry_run_valid_same e d (ok u) r = dry_run_outcome_same e d r
  dry_run_valid_same e d (err x) r = refl

  dry_run_same :
      (e : Env F P) (d : Runner F P) (r : Result MaskError (Groups P × List String))
      → (dry_run e d false r).1 ≡ d
  dry_run_same e d (err x) = refl
  dry_run_same e d (ok (groups, skip)) =
      dry_run_valid_same e d (validate (some groups)) (e.validate_spec groups skip)

  guarded_same :
      {A : Type 0} (d : Runner F P) (check : Option HandlerError) (a : Answer F P A)
      → a.1 ≡ d
      → (guarded d check a).1 ≡ d
  guarded_same d (some x) a h = refl
  guarded_same d none a h = h

  -- A request to validate changes leaves the whole state as it was, whatever its checks, the
  -- validation and the activity answer; only a request without changes records its outcome.
  pub handle_validate_spec_unchanged :
      (e : Env F P) (d : Runner F P) (args : ValidateSpecRequest P)
      → (is_empty args.remove_scaling_groups && is_empty args.upsert_scaling_groups) ≡ false
      → (handle_validate_spec e d args).1 ≡ d
  unfolding handle_validate_spec
  handle_validate_spec_unchanged e d args changes =
      guarded_same d (first_some (ensure_enabled e d ∷ pre_update_checks e d ∷ [])) _
        (rw changes (dry_run_same e d _))
