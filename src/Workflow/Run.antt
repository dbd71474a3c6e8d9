-- ===== src/Workflow/Run.antt =====
-- workflow.go: the specification and the deletion over any run of handlers.
use temporal_auto_scaled_wor.Prelude.{
  ℕ, if◌then◌else◌, Bool, true, false, not, ◌||◌, String, Option, none, some, List, [], ◌∷◌,
  is_empty, leb, first_some, Float64, Result, ok, err, ◌≡◌, refl, sym, subst, ◌∙◌, ◌⊎◌, inl, inr,
  Bool-cases, Option-cases, arith,
}
use temporal_auto_scaled_wor.Iface.Types.{Groups, UpdateRequest, SignalTaskAddRequest}
use temporal_auto_scaled_wor.Iface.Spec.{SpecError, validate}
use temporal_auto_scaled_wor.Iface.SpecUpdate.{MaskError, current_groups}
use temporal_auto_scaled_wor.Activities.{ActivityError, app_error, other_error}
use temporal_auto_scaled_wor.Workflow.{
  HandlerError, instance_deleted, no_change, token_mismatch, ValidateSpecRequest, ValidationStatus,
  Runner, Env, ensure_not_deleted, pre_update_checks, worker_controller_enabled, mark_deleted,
  with_status, signal_version_workflow,
}
use temporal_auto_scaled_wor.Workflow.Updates.{
  Answer, guarded, handle_update_instance, validate_update_instance, handle_delete_instance,
  handle_validate_spec, dry_run, dry_run_valid, dry_run_outcome, is_stale, bytes_equal,
  periodic_validate_spec, periodic_outcome,
}
use temporal_auto_scaled_wor.Workflow.Queue.{queue_task_add_signal, drain_before_continue_as_new}
use temporal_auto_scaled_wor.Workflow.Actions.{
  Workers, Dispatch, pull_stats_and_update, process_pending_task_add_signals,
  handle_no_sync_match_signal,
}
use temporal_auto_scaled_wor.Workflow.Actions.Batch.{process_task_add_batch}
use temporal_auto_scaled_wor.Workflow.Actions.Keeping.{
  Keeps, drain_before_continue_as_new-Keeps, queue_task_add_signal-Keeps,
  pull_stats_and_update-Keeps, process_pending_task_add_signals-Keeps, process_task_add_batch-Keeps,
  handle_no_sync_match_signal-Keeps,
}
use temporal_auto_scaled_wor.Workflow.Invariant.{
  IsUpdateAnswer, handle_update_instance-IsUpdateAnswer,
}

bytes_equal_itself : (b : List ℕ) → bytes_equal b b ≡ true
bytes_equal_itself [] = refl
bytes_equal_itself (a ∷ as') = ground (arith, bytes_equal_itself as')

is_stale_itself : (t : Option (List ℕ)) → is_stale t t ≡ false
is_stale_itself none = refl
is_stale_itself (some b) = rw (bytes_equal_itself b) refl

-- The check of the request's changes, among the validator's.
again_of :
    (gone empty stale : Bool)
    → first_some (
        (if gone then some instance_deleted else none)
        ∷ (if empty then some no_change else none)
        ∷ (if stale then some token_mismatch else none)
        ∷ [])
      ≡ none
    → first_some (none ∷ (if empty then some no_change else none) ∷ none ∷ []) ≡ none
again_of gone empty stale h = ground arith

module _ {P : Type 0} where
  -- The specification of an instance that is not deleted is not set yet, or passes Validate.
  abbrev pub IsValidSpec : Option (Groups P) → Type 0
  IsValidSpec none = Unit {0}
  IsValidSpec (some m) = validate (some m) ≡ ok tt

module _ (F : Float64) (P : Type 0) where
  -- The messages that the workflow handles, its two timers, and the work on the queue of signals: the
  -- signals of the run before at the start, a batch with the signals that arrive meanwhile, or one
  -- signal at once where the queue has no limit.
  pub data Message : Type 0 where
    update : UpdateRequest P → Message
    delete : Message
    check : ValidateSpecRequest P → Message
    periodic : Message
    signal : Option SignalTaskAddRequest → Message
    poll : Workers F P → Message
    pending_signals : Workers F P → Message
    batch : Workers F P → List (Option SignalTaskAddRequest) → Message
    signal_at_once : Workers F P → Option SignalTaskAddRequest → Message
    drain : List (Option SignalTaskAddRequest) → Message

module _ {F : Float64} {P : Type 0} where
  abbrev pub IsWellFormed : Runner F P → Type 0
  IsWellFormed d = (d.delete_instance ≡ true) ⊎ IsValidSpec d.spec

  -- An update's validator runs before its handler.
  abbrev pub after_validator : Option HandlerError → Runner F P → Runner F P → Runner F P
  after_validator (some x) d d' = d
  after_validator none d d' = d'

  -- A handler starts with no call made.
  abbrev pub dispatch_of : Runner F P → Dispatch F P
  dispatch_of d = record { runner = d; calls = []; panicked = false }

  abbrev pub step : Env F P → Message F P → Runner F P → Runner F P
  step e (update args) d =
      after_validator (validate_update_instance d args) d (handle_update_instance e d args).1
  step e delete d = after_validator (ensure_not_deleted d) d (handle_delete_instance e d).1
  step e (check args) d = after_validator (ensure_not_deleted d) d (handle_validate_spec e d args).1
  step e periodic d = periodic_validate_spec e d
  step e (signal r) d = queue_task_add_signal r d
  step e (poll w) d = (pull_stats_and_update e w (dispatch_of d)).0.runner
  step e (pending_signals w) d = (process_pending_task_add_signals e w (dispatch_of d)).runner
  step e (batch w channel) d = (process_task_add_batch e w channel (dispatch_of d)).0.runner
  step e (signal_at_once w r) d = (handle_no_sync_match_signal e w r (dispatch_of d)).runner
  step e (drain rs) d = drain_before_continue_as_new rs d

  unfoldable pub run : List (Env F P × Message F P) → Runner F P → Runner F P
  run [] d = d
  run ((e, m) ∷ ms) d = run ms (step e m d)

  answer-IsWellFormed :
      (e : Env F P) (d : Runner F P) (args : UpdateRequest P) (a : Answer F P (Option (Groups P)))
      → IsWellFormed d
      → IsUpdateAnswer e d args a
      → IsWellFormed a.1
  answer-IsWellFormed e d args (err x, d') w (inl same) = subst IsWellFormed (sym same) w
  answer-IsWellFormed e d args (err x, d') w (inr same) = subst IsWellFormed (sym same) w
  answer-IsWellFormed e d args (ok s, d') w
        (groups, skip, b, t, spec, token, inl (none_left, gone)) =
      inl gone
  answer-IsWellFormed e d args (ok s, d') w (groups, skip, b, t, spec, token, inr applied) =
      inr (subst IsValidSpec (sym spec) applied.valid)

  Keeps-IsWellFormed : (d d' : Runner F P) → Keeps d d' → IsWellFormed d → IsWellFormed d'
  Keeps-IsWellFormed d d' k (inl gone) = inl (k.0 ∙ gone)
  Keeps-IsWellFormed d d' k (inr valid) = inr (subst IsValidSpec (sym k.1) valid)

  with_status-Keeps : (s : ValidationStatus) (d : Runner F P) → Keeps d (with_status s d)
  unfolding signal_version_workflow
  with_status-Keeps s d = elim (Bool-cases (leb 2 d.version)) [
    | inl new ↦ rw new (refl, refl)
    | inr old ↦ rw old (refl, refl)
  ]

  dry_run_outcome-Keeps :
      (e : Env F P) (d : Runner F P) (unchanged : Bool) (r : Result ActivityError (Unit {0}))
      → Keeps d (dry_run_outcome e d unchanged r).1
  dry_run_outcome-Keeps e d true (ok u) = with_status-Keeps _ d
  dry_run_outcome-Keeps e d false (ok u) = (refl, refl)
  dry_run_outcome-Keeps e d true (err (app_error t m)) = with_status-Keeps _ d
  dry_run_outcome-Keeps e d false (err (app_error t m)) = (refl, refl)
  dry_run_outcome-Keeps e d unchanged (err (other_error m)) = (refl, refl)

  dry_run_valid-Keeps :
      (e : Env F P) (d : Runner F P) (unchanged : Bool) (v : Result SpecError (Unit {0}))
      (r : Result ActivityError (Unit {0}))
      → Keeps d (dry_run_valid e d unchanged v r).1
  dry_run_valid-Keeps e d unchanged (err x) r = (refl, refl)
  dry_run_valid-Keeps e d unchanged (ok u) r = dry_run_outcome-Keeps e d unchanged r

  dry_run-Keeps :
      (e : Env F P) (d : Runner F P) (unchanged : Bool)
      (r : Result MaskError (Groups P × List String))
      → Keeps d (dry_run e d unchanged r).1
  dry_run-Keeps e d unchanged (err x) = (refl, refl)
  dry_run-Keeps e d unchanged (ok (groups, skip)) =
      dry_run_valid-Keeps e d unchanged (validate (some groups)) (e.validate_spec groups skip)

  guarded-Keeps :
      {A : Type 0} (d : Runner F P) (check : Option HandlerError) (a : Answer F P A)
      → Keeps d a.1
      → Keeps d (guarded d check a).1
  guarded-Keeps d (some x) a h = (refl, refl)
  guarded-Keeps d none a h = h

  handle_validate_spec-Keeps :
      (e : Env F P) (d : Runner F P) (args : ValidateSpecRequest P)
      → Keeps d (handle_validate_spec e d args).1
  unfolding handle_validate_spec
  handle_validate_spec-Keeps e d args = guarded-Keeps d _ _ (dry_run-Keeps e d _ _)

  periodic_outcome-Keeps :
      (e : Env F P) (d : Runner F P) (r : Result ActivityError (Unit {0}))
      → Keeps d (periodic_outcome e d r)
  periodic_outcome-Keeps e d (ok u) = with_status-Keeps _ d
  periodic_outcome-Keeps e d (err (app_error t m)) = with_status-Keeps _ d
  periodic_outcome-Keeps e d (err (other_error m)) = (refl, refl)

  periodic_validate_spec-Keeps :
      (e : Env F P) (d : Runner F P) → Keeps d (periodic_validate_spec e d)
  unfolding periodic_validate_spec
  periodic_validate_spec-Keeps e d =
      elim (Bool-cases (is_empty (current_groups d.spec) || not (worker_controller_enabled e d))) [
        | inl skipped ↦ rw skipped (refl, refl)
        | inr due ↦ rw due (periodic_outcome-Keeps e d (e.validate_spec (current_groups d.spec) []))
      ]

  after_validator-IsWellFormed :
      (check : Option HandlerError) (d d' : Runner F P)
      → IsWellFormed d
      → IsWellFormed d'
      → IsWellFormed (after_validator check d d')
  after_validator-IsWellFormed (some x) d d' w w' = w
  after_validator-IsWellFormed none d d' w w' = w'

  handle_delete_instance-IsWellFormed :
      (e : Env F P) (d : Runner F P) → IsWellFormed d → IsWellFormed (handle_delete_instance e d).1
  unfolding handle_delete_instance mark_deleted
  handle_delete_instance-IsWellFormed e d w = elim (Option-cases (pre_update_checks e d)) [
    | inl fine ↦ elim (Bool-cases e.lock_fails) [
      | inl failed_lock ↦ rw (fine, failed_lock) w
      | inr free ↦ rw (fine, free) (inl refl)
    ]
    | inr (x, refused) ↦ rw refused w
  ]

  step-IsWellFormed :
      (e : Env F P) (m : Message F P) (d : Runner F P) → IsWellFormed d → IsWellFormed (step e m d)
  step-IsWellFormed e (update args) d w =
      after_validator-IsWellFormed (validate_update_instance d args) d _ w (
        answer-IsWellFormed e d args (handle_update_instance e d args) w
          (handle_update_instance-IsUpdateAnswer e d args))
  step-IsWellFormed e delete d w =
      after_validator-IsWellFormed (ensure_not_deleted d) d _ w
        (handle_delete_instance-IsWellFormed e d w)
  step-IsWellFormed e (check args) d w = after_validator-IsWellFormed (ensure_not_deleted d) d _ w (
      Keeps-IsWellFormed d (handle_validate_spec e d args).1 (handle_validate_spec-Keeps e d args)
        w)
  step-IsWellFormed e periodic d w =
      Keeps-IsWellFormed d (periodic_validate_spec e d) (periodic_validate_spec-Keeps e d) w
  step-IsWellFormed e (signal r) d w =
      Keeps-IsWellFormed d (queue_task_add_signal r d) (queue_task_add_signal-Keeps r d) w
  step-IsWellFormed e (poll a) d w =
      Keeps-IsWellFormed d (step e (poll a) d) (pull_stats_and_update-Keeps e a (dispatch_of d)) w
  step-IsWellFormed e (pending_signals a) d w =
      Keeps-IsWellFormed d (step e (pending_signals a) d)
        (process_pending_task_add_signals-Keeps e a (dispatch_of d)) w
  step-IsWellFormed e (batch a channel) d w =
      Keeps-IsWellFormed d (step e (batch a channel) d)
        (process_task_add_batch-Keeps e a channel (dispatch_of d)) w
  step-IsWellFormed e (signal_at_once a r) d w =
      Keeps-IsWellFormed d (step e (signal_at_once a r) d)
        (handle_no_sync_match_signal-Keeps e a r (dispatch_of d)) w
  step-IsWellFormed e (drain rs) d w =
      Keeps-IsWellFormed d (step e (drain rs) d) (drain_before_continue_as_new-Keeps rs d) w

  -- Whatever messages and timers arrive and whatever the activities answer: the specification of an instance
  -- that is not deleted is not set, or passes Validate, if it starts so.
  pub run-IsWellFormed :
      (ms : List (Env F P × Message F P)) (d : Runner F P)
      → IsWellFormed d
      → IsWellFormed (run ms d)
  unfolding run
  run-IsWellFormed [] d w = w
  run-IsWellFormed ((e, m) ∷ ms) d w = run-IsWellFormed ms (step e m d) (step-IsWellFormed e m d w)

  step-deleted :
      (e : Env F P) (m : Message F P) (d : Runner F P)
      → d.delete_instance ≡ true
      → Keeps d (step e m d)
  unfolding validate_update_instance
  step-deleted e (update args) d gone = rw gone (refl, refl)
  step-deleted e delete d gone = rw gone (refl, refl)
  step-deleted e (check args) d gone = rw gone (refl, refl)
  step-deleted e periodic d gone = periodic_validate_spec-Keeps e d
  step-deleted e (signal r) d gone = queue_task_add_signal-Keeps r d
  step-deleted e (poll a) d gone = pull_stats_and_update-Keeps e a (dispatch_of d)
  step-deleted e (pending_signals a) d gone =
      process_pending_task_add_signals-Keeps e a (dispatch_of d)
  step-deleted e (batch a channel) d gone = process_task_add_batch-Keeps e a channel (dispatch_of d)
  step-deleted e (signal_at_once a r) d gone =
      handle_no_sync_match_signal-Keeps e a r (dispatch_of d)
  step-deleted e (drain rs) d gone = drain_before_continue_as_new-Keeps rs d

  -- A deletion is final: over any run after it the instance stays deleted, with the specification
  -- that it had.
  pub run-deleted :
      (ms : List (Env F P × Message F P)) (d : Runner F P)
      → d.delete_instance ≡ true
      → ((run ms d).delete_instance ≡ true) × ((run ms d).spec ≡ d.spec)
  unfolding run
  run-deleted [] d gone = (gone, refl)
  run-deleted ((e, m) ∷ ms) d gone =
      let kept = step-deleted e m d gone in
      let later = run-deleted ms (step e m d) (kept.0 ∙ gone) in (later.0, later.1 ∙ kept.1)

  answer_token :
      (e : Env F P) (d : Runner F P) (args : UpdateRequest P) (s : Option (Groups P))
      (a : Answer F P (Option (Groups P)))
      → IsUpdateAnswer e d args a
      → a.0 ≡ ok s
      → a.1.conflict_token ≡ args.conflict_token
  answer_token e d args s (err x, d') i h = cc
  answer_token e d args s (ok t, d') (groups, skip, b, u, spec, token, rest) h = token

  -- The token does not advance: after an update with a token succeeds and leaves the instance
  -- undeleted, the same request passes the validator again.
  pub validate_update_instance-again :
      (e : Env F P) (d : Runner F P) (args : UpdateRequest P) (s : Option (Groups P))
      → validate_update_instance d args ≡ none
      → (handle_update_instance e d args).0 ≡ ok s
      → (handle_update_instance e d args).1.delete_instance ≡ false
      → validate_update_instance (handle_update_instance e d args).1 args ≡ none
  unfolding validate_update_instance
  validate_update_instance-again e d args s v h kept =
      let token = answer_token e d args s _ (handle_update_instance-IsUpdateAnswer e d args) h in
      rw (kept, token, is_stale_itself args.conflict_token) (again_of d.delete_instance _ _ v)
