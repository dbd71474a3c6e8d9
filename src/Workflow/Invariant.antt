-- ===== src/Workflow/Invariant.antt =====
-- workflow.go: what an update leaves, and the specification over any run of handlers.
use temporal_auto_scaled_wor.Prelude.{
  ℕ, Bool, true, false, String, Option, none, some, List, [], ◌∷◌, is_empty, leb, first_some,
  Float64, Result, ok, err, Result-cases, ◌≡◌, refl, ◌⊎◌, inl, inr, Bool-cases,
}
use temporal_auto_scaled_wor.Iface.Types.{Groups, UpdateRequest}
use temporal_auto_scaled_wor.Iface.Spec.{validate}
use temporal_auto_scaled_wor.Iface.SpecUpdate.{MaskError, build_updated_spec}
use temporal_auto_scaled_wor.Activities.{ActivityError}
use temporal_auto_scaled_wor.Workflow.{
  success, HandlerError, Runner, Env, Statuses, ensure_enabled, pre_update_checks, mark_deleted,
  with_status, signal_version_workflow,
}
use temporal_auto_scaled_wor.Workflow.Updates.{
  Answer, registered, validated, update_to, update_built, guarded, locked, mark_changed,
  handle_update_instance,
}

module _ {F : Float64} {P : Type 0} where
  -- An update that is not a deletion.
  pub record IsApplied (e : Env F P) (d d' : Runner F P) (groups : Groups P) (skip : List String)
      : Type 0 where
    pub valid : validate (some groups) ≡ ok tt
    pub checked : e.validate_spec groups skip ≡ ok tt
    pub registration : e.register_task_queues groups d.scaling_status ≡ ok d'.scaling_status
    pub status : d'.validation_status ≡ some (success e.now)
    pub kept : d'.delete_instance ≡ d.delete_instance

  -- What an answer to an update says: an error leaves the state, but for the flag that the
  -- history has grown; else the specification and the token are the request's.
  abbrev pub IsUpdateAnswer :
      Env F P → Runner F P → UpdateRequest P → Answer F P (Option (Groups P)) → Type 0
  IsUpdateAnswer e d args (err x, d') = (d' ≡ d) ⊎ (d' ≡ record d { state_changed = true })
  IsUpdateAnswer e d args (ok s, d') =
      (groups : Groups P) × (skip : List String) × (build_updated_spec e.order d.spec args
        ≡ ok (groups, skip))
      × (s ≡ some groups)
      × (d'.spec ≡ some groups)
      × (d'.conflict_token ≡ args.conflict_token)
      × (((is_empty groups ≡ true) × (d'.delete_instance ≡ true)) ⊎ IsApplied e d d' groups skip)

  with_status-IsApplied :
      (e : Env F P) (d : Runner F P) (token : Option (List ℕ)) (groups : Groups P)
      (skip : List String) (s : Statuses F P)
      → validate (some groups) ≡ ok tt
      → e.validate_spec groups skip ≡ ok tt
      → e.register_task_queues groups d.scaling_status ≡ ok s
      → IsApplied e d
          (record (with_status (success e.now) (record d { scaling_status = s })) {
            conflict_token = token;
            spec = some groups;
            state_changed = true;
          })
          groups
          skip
  unfolding signal_version_workflow
  with_status-IsApplied e d token groups skip s v c r = elim (Bool-cases (leb 2 d.version)) [
    | inl new ↦
        rw new (record { valid = v; checked = c; registration = r; status = refl; kept = refl })
    | inr old ↦
        rw old (record { valid = v; checked = c; registration = r; status = refl; kept = refl })
  ]

  registered-IsUpdateAnswer :
      (e : Env F P) (d : Runner F P) (args : UpdateRequest P) (groups : Groups P)
      (skip : List String) (r : Result ActivityError (Statuses F P))
      → build_updated_spec e.order d.spec args ≡ ok (groups, skip)
      → validate (some groups) ≡ ok tt
      → e.validate_spec groups skip ≡ ok tt
      → e.register_task_queues groups d.scaling_status ≡ r
      → IsUpdateAnswer e d args (mark_changed (registered e d args.conflict_token groups r))
  registered-IsUpdateAnswer e d args groups skip (err a) b v c r = inr refl
  registered-IsUpdateAnswer e d args groups skip (ok s) b v c r = (
    groups,
    skip,
    b,
    refl,
    refl,
    refl,
    inr (with_status-IsApplied e d args.conflict_token groups skip s v c r),
  )

  validated-IsUpdateAnswer :
      (e : Env F P) (d : Runner F P) (args : UpdateRequest P) (groups : Groups P)
      (skip : List String) (r : Result ActivityError (Unit {0}))
      → build_updated_spec e.order d.spec args ≡ ok (groups, skip)
      → validate (some groups) ≡ ok tt
      → e.validate_spec groups skip ≡ r
      → IsUpdateAnswer e d args (mark_changed (validated e d args.conflict_token groups r))
  validated-IsUpdateAnswer e d args groups skip (err a) b v c = inr refl
  validated-IsUpdateAnswer e d args groups skip (ok u) b v c =
      registered-IsUpdateAnswer e d args groups skip _ b v c refl

  update_to-IsUpdateAnswer :
      (e : Env F P) (d : Runner F P) (args : UpdateRequest P) (groups : Groups P)
      (skip : List String)
      → build_updated_spec e.order d.spec args ≡ ok (groups, skip)
      → IsUpdateAnswer e d args (mark_changed (update_to e d args.conflict_token groups skip))
  unfolding update_to mark_deleted
  update_to-IsUpdateAnswer e d args groups skip b = elim (Bool-cases (is_empty groups)) [
    | inl none_left ↦ rw none_left (groups, skip, b, refl, refl, refl, inl (none_left, refl))
    | inr some_left ↦ elim (Result-cases (validate (some groups))) [
      | inl (u, v) ↦ rw (some_left, v) (validated-IsUpdateAnswer e d args groups skip _ b v refl)
      | inr (x, v) ↦ rw (some_left, v) (inr refl)
    ]
  ]

  update_built-IsUpdateAnswer :
      (e : Env F P) (d : Runner F P) (args : UpdateRequest P)
      (r : Result MaskError (Groups P × List String))
      → build_updated_spec e.order d.spec args ≡ r
      → IsUpdateAnswer e d args (mark_changed (update_built e d args.conflict_token r))
  update_built-IsUpdateAnswer e d args (err x) b = inr refl
  update_built-IsUpdateAnswer e d args (ok (groups, skip)) b =
      update_to-IsUpdateAnswer e d args groups skip b

  locked-IsUpdateAnswer :
      (e : Env F P) (d : Runner F P) (args : UpdateRequest P) (fails : Bool)
      (answer : Answer F P (Option (Groups P)))
      → IsUpdateAnswer e d args (mark_changed answer)
      → IsUpdateAnswer e d args (locked d fails answer)
  locked-IsUpdateAnswer e d args true answer h = inl refl
  locked-IsUpdateAnswer e d args false answer h = h

  guarded-IsUpdateAnswer :
      (e : Env F P) (d : Runner F P) (args : UpdateRequest P) (check : Option HandlerError)
      (answer : Answer F P (Option (Groups P)))
      → IsUpdateAnswer e d args answer
      → IsUpdateAnswer e d args (guarded d check answer)
  guarded-IsUpdateAnswer e d args (some x) answer h = inl refl
  guarded-IsUpdateAnswer e d args none answer h = h

  -- What an update may do: fail, which leaves the whole state as it was but for the flag that the
  -- history has grown; empty the specification, which deletes the instance; or take over a
  -- specification that passed Validate, the activity's validation and the registration of its task
  -- queues, with the status of the registration and a successful validation.
  pub handle_update_instance-IsUpdateAnswer :
      (e : Env F P) (d : Runner F P) (args : UpdateRequest P)
      → IsUpdateAnswer e d args (handle_update_instance e d args)
  unfolding handle_update_instance
  handle_update_instance-IsUpdateAnswer e d args =
      guarded-IsUpdateAnswer e d args (first_some (ensure_enabled e d ∷ pre_update_checks e d ∷ []))
        _
        (locked-IsUpdateAnswer e d args e.lock_fails _
          (update_built-IsUpdateAnswer e d args (build_updated_spec e.order d.spec args) refl))
