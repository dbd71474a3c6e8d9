-- ===== src/Workflow/Updates.antt =====
-- workflow.go: the handlers of updates, deletions and validations.
use temporal_auto_scaled_wor.Prelude.{
  ℕ, ◌==◌, if◌then◌else◌, Bool, true, false, not, ◌&&◌, ◌||◌, String, str_eq, Option, none, some,
  List, [], ◌∷◌, is_empty, first_some, Float64, Result, ok, err,
}
use temporal_auto_scaled_wor.Iface.Types.{Groups, UpdateRequest}
use temporal_auto_scaled_wor.Iface.Spec.{SpecError, validate}
use temporal_auto_scaled_wor.Iface.SpecUpdate.{MaskError, build_updated_spec, current_groups}
use temporal_auto_scaled_wor.Activities.{ActivityError, app_error, other_error}
use temporal_auto_scaled_wor.Workflow.{
  success, failed, HandlerError, lock_timeout, no_change, token_mismatch, bad_update, invalid_spec,
  invalid_argument, resource_exhausted, failed_precondition, activity_failed, ValidateSpecRequest,
  Runner, Env, Statuses, ensure_enabled, ensure_not_deleted, pre_update_checks,
  worker_controller_enabled, mark_deleted, with_status,
}

-- `bytes.Equal`; a nil slice is empty.
abbrev pub bytes_equal : List ℕ → List ℕ → Bool
bytes_equal [] [] = true
bytes_equal (a ∷ as') (b ∷ bs) = (a == b) && bytes_equal as' bs
bytes_equal _ _ = false

abbrev pub bytes_of : Option (List ℕ) → List ℕ
bytes_of none = []
bytes_of (some b) = b

-- A request with a token that differs from the state's.
abbrev pub is_stale : Option (List ℕ) → Option (List ℕ) → Bool
is_stale none current = false
is_stale (some token) current = not (bytes_equal token (bytes_of current))

abbrev pub validation_error : ActivityError → HandlerError
validation_error (app_error type message) = invalid_argument message
validation_error (other_error message) = activity_failed message

abbrev pub registration_error : ActivityError → HandlerError
registration_error (app_error type message) =
    if str_eq type "InvalidArgument"
    then invalid_argument message
    else if str_eq type "ResourceExhausted"
    then resource_exhausted message
    else failed_precondition message
registration_error (other_error message) = activity_failed message

-- What a handler returns, and the state it leaves.
abbrev pub Answer : Float64 → Type 0 → Type 0 → Type 0
Answer F P A = Result HandlerError A × Runner F P

module _ {F : Float64} {P : Type 0} where
  unfoldable pub validate_update_instance : Runner F P → UpdateRequest P → Option HandlerError
  validate_update_instance d args = first_some (
      ensure_not_deleted d
      ∷ (if is_empty args.remove_scaling_groups && is_empty args.upsert_scaling_groups
          then some no_change
          else none)
      ∷ (if is_stale args.conflict_token d.conflict_token then some token_mismatch else none)
      ∷ [])

  -- The answer of an update with its registration's answer.
  abbrev pub registered :
      Env F P
      → Runner F P
      → Option (List ℕ)
      → Groups P
      → Result ActivityError (Statuses F P)
      → Answer F P (Option (Groups P))
  registered e d token groups (err a) = (err (registration_error a), d)
  registered e d token groups (ok s) = (
    ok (some groups),
    record (with_status (success e.now) (record d { scaling_status = s })) {
      conflict_token = token;
      spec = some groups;
    },
  )

  abbrev pub validated :
      Env F P
      → Runner F P
      → Option (List ℕ)
      → Groups P
      → Result ActivityError (Unit {0})
      → Answer F P (Option (Groups P))
  validated e d token groups (err a) = (err (validation_error a), d)
  validated e d token groups (ok u) =
      registered e d token groups (e.register_task_queues groups d.scaling_status)

  -- An update to the built groups, none of which is a deletion.
  unfoldable pub update_to :
      Env F P
      → Runner F P
      → Option (List ℕ)
      → Groups P
      → List String
      → Answer F P (Option (Groups P))
  update_to e d token groups skip =
      if is_empty groups
      then (
        ok (some groups),
        record (mark_deleted d) { conflict_token = token; spec = some groups },
      )
      else elim (validate (some groups)) [
        | err x ↦ (err (invalid_spec x), d)
        | ok u ↦ validated e d token groups (e.validate_spec groups skip)
      ]

  abbrev pub update_built :
      Env F P
      → Runner F P
      → Option (List ℕ)
      → Result MaskError (Groups P × List String)
      → Answer F P (Option (Groups P))
  update_built e d token (err x) = (err (bad_update x), d)
  update_built e d token (ok (groups, skip)) = update_to e d token groups skip

  -- A check that fails ends the handler.
  abbrev pub guarded : {A : Type 0} → Runner F P → Option HandlerError → Answer F P A → Answer F P A
  guarded d (some x) answer = (err x, d)
  guarded d none answer = answer

  -- Every path after the lock marks the state as changed.
  abbrev pub mark_changed : {A : Type 0} → Answer F P A → Answer F P A
  mark_changed (r, d) = (r, record d { state_changed = true })

  abbrev pub locked : {A : Type 0} → Runner F P → Bool → Answer F P A → Answer F P A
  locked d true answer = (err lock_timeout, d)
  locked d false answer = mark_changed answer

  unfoldable pub handle_update_instance :
      Env F P → Runner F P → UpdateRequest P → Answer F P (Option (Groups P))
  handle_update_instance e d args =
      guarded d (first_some (ensure_enabled e d ∷ pre_update_checks e d ∷ [])) (
        locked d e.lock_fails
          (update_built e d args.conflict_token (build_updated_spec e.order d.spec args)))

  unfoldable pub handle_delete_instance : Env F P → Runner F P → Answer F P (Unit {0})
  handle_delete_instance e d =
      guarded d (pre_update_checks e d) (locked d e.lock_fails (ok tt, mark_deleted d))

  -- A request without changes records its outcome.
  abbrev pub dry_run_outcome :
      Env F P → Runner F P → Bool → Result ActivityError (Unit {0}) → Answer F P (Unit {0})
  dry_run_outcome e d unchanged (ok u) =
      (ok tt, (if unchanged then with_status (success e.now) d else d))
  dry_run_outcome e d unchanged (err (app_error type message)) = (
    err (invalid_argument message),
    (if unchanged then with_status (failed e.now message) d else d),
  )
  dry_run_outcome e d unchanged (err (other_error message)) = (err (activity_failed message), d)

  abbrev pub dry_run_valid :
      Env F P
      → Runner F P
      → Bool
      → Result SpecError (Unit {0})
      → Result ActivityError (Unit {0})
      → Answer F P (Unit {0})
  dry_run_valid e d unchanged (err x) checked = (err (invalid_spec x), d)
  dry_run_valid e d unchanged (ok u) checked = dry_run_outcome e d unchanged checked

  abbrev pub dry_run :
      Env F P
      → Runner F P
      → Bool
      → Result MaskError (Groups P × List String)
      → Answer F P (Unit {0})
  dry_run e d unchanged (err x) = (err (bad_update x), d)
  dry_run e d unchanged (ok (groups, skip)) =
      dry_run_valid e d unchanged (validate (some groups)) (e.validate_spec groups skip)

  unfoldable pub handle_validate_spec :
      Env F P → Runner F P → ValidateSpecRequest P → Answer F P (Unit {0})
  handle_validate_spec e d args =
      let request : UpdateRequest P = record {
        identity = args.identity;
        conflict_token = none;
        upsert_scaling_groups = args.upsert_scaling_groups;
        remove_scaling_groups = args.remove_scaling_groups;
      } in
      let unchanged = is_empty args.remove_scaling_groups && is_empty args.upsert_scaling_groups in
      guarded d (first_some (ensure_enabled e d ∷ pre_update_checks e d ∷ []))
        (dry_run e d unchanged (build_updated_spec e.order d.spec request))

  abbrev pub periodic_outcome : Env F P → Runner F P → Result ActivityError (Unit {0}) → Runner F P
  periodic_outcome e d (ok u) = with_status (success e.now) d
  periodic_outcome e d (err (app_error type message)) = with_status (failed e.now message) d
  periodic_outcome e d (err (other_error message)) = d

  unfoldable pub periodic_validate_spec : Env F P → Runner F P → Runner F P
  periodic_validate_spec e d =
      let groups = current_groups d.spec in
      if is_empty groups || not (worker_controller_enabled e d)
      then d
      else periodic_outcome e d (e.validate_spec groups [])
