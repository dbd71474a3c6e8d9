-- ===== src/Workflow/Actions/Batch/Progress.antt =====
-- processTaskAddBatch: how far it gets.
use temporal_auto_scaled_wor.Prelude.{
  ℕ, zero, suc, ◌*◌, ◌≤◌, ◌-◌, if◌then◌else◌, Bool, true, false, not, ◌||◌, leb, Option, none, some,
  List, [], ◌∷◌, ◌++◌, length, Float64, Result, ok, err, ◌≡◌, refl, sym, ap, subst, ◌∙◌, arith,
}
use temporal_auto_scaled_wor.Iface.Types.{SignalTaskAddRequest}
use temporal_auto_scaled_wor.Activities.{ActivityError, StatusMap}
use temporal_auto_scaled_wor.Activities.TaskAdd.{TaskAddActivityResponse}
use temporal_auto_scaled_wor.Workflow.{
  Runner, Env, worker_controller_enabled, should_continue_as_new,
}
use temporal_auto_scaled_wor.Workflow.Queue.{take, with_pending, append_assoc, appended_nothing}
use temporal_auto_scaled_wor.Workflow.Actions.{
  Call, asked, invoked, resized, decided, Workers, Dispatch, with_call, if_running, with_runner,
  with_statuses, after_task_add, no_sync_match, handle_no_sync_match_signal, process_next_of,
  process_next_queued_task_add_signal,
}
use temporal_auto_scaled_wor.Workflow.Actions.Safety.{
  IsKept, asks, IsKept-itself, IsKept-trans, handle_actions-IsPart,
}
use temporal_auto_scaled_wor.Workflow.Actions.Panic.{IsTaskAddActivity, signal-panicked}
use temporal_auto_scaled_wor.Workflow.Actions.Batch.{
  batch_size, process_rounds, process_task_add_batch, batches,
}

module _ {ℓ} {A : Type ℓ} where
  abbrev pub drop : ℕ → List A → List A
  drop zero xs = xs
  drop (suc n) [] = []
  drop (suc n) (x ∷ xs) = drop n xs

  length-drop : (n : ℕ) (xs : List A) → length (drop n xs) ≡ length xs - n
  length-drop zero xs = omega arith
  length-drop (suc n) [] = omega arith
  length-drop (suc n) (x ∷ xs) = omega (arith, length-drop n xs)

-- The signals that are not nil.
abbrev pub signals : List (Option SignalTaskAddRequest) → List SignalTaskAddRequest
signals [] = []
signals (none ∷ rs) = signals rs
signals (some r ∷ rs) = r ∷ signals rs

signals-split :
    (n : ℕ) (rs : List (Option SignalTaskAddRequest))
    → signals (take n rs) ++ signals (drop n rs) ≡ signals rs
signals-split zero rs = refl
signals-split (suc n) [] = refl
signals-split (suc n) (none ∷ rs) = signals-split n rs
signals-split (suc n) (some r ∷ rs) = ap (λ l. r ∷ l) (signals-split n rs)

signals-cons :
    (r : Option SignalTaskAddRequest) (rs : List (Option SignalTaskAddRequest))
    → signals (r ∷ []) ++ signals rs ≡ signals (r ∷ rs)
signals-cons none rs = refl
signals-cons (some r) rs = refl

module _ {F : Float64} {P : Type 0} where
  -- The run goes on, and the controller is enabled.
  abbrev pub IsActive : Env F P → Runner F P → Type 0
  IsActive e d = (should_continue_as_new e d ≡ false) × (worker_controller_enabled e d ≡ true)

  IsKept-IsActive : (e : Env F P) (d d' : Runner F P) → IsKept d d' → IsActive e d → IsActive e d'
  IsKept-IsActive e d d' k h = (
    ap (λ b. (b || d'.state_changed) || e.continue_as_new_suggested) k.delete_instance
        ∙ ap (λ b. (d.delete_instance || b) || e.continue_as_new_suggested) k.state_changed
        ∙ h.0,
    ap (λ v. not (leb 4 v) || e.enabled) k.version ∙ h.1,
  )

  asks-ask :
      (cs : List (Call F P)) (r : SignalTaskAddRequest)
      → asks (cs ++ (asked r ∷ [])) ≡ asks cs ++ (r ∷ [])
  asks-ask [] r = refl
  asks-ask (asked q ∷ cs) r = ap (λ l. q ∷ l) (asks-ask cs r)
  asks-ask (invoked k d ∷ cs) r = asks-ask cs r
  asks-ask (resized k d n ∷ cs) r = asks-ask cs r
  asks-ask (decided q ∷ cs) r = asks-ask cs r

  record IsHandled (r : Option SignalTaskAddRequest) (st st' : Dispatch F P) : Type 0 where
    kept : IsKept st.runner st'.runner
    asks : asks st'.calls ≡ asks st.calls ++ signals (r ∷ [])

  statuses-IsKept :
      (s : StatusMap F) (st : Dispatch F P) → IsKept st.runner (with_statuses s st).runner
  statuses-IsKept none st = IsKept-itself st.runner
  statuses-IsKept (some m) st = record {
    spec = refl;
    pending = refl;
    conflict_token = refl;
    delete_instance = refl;
    state_changed = refl;
    version = refl;
  }

  statuses-asks :
      (s : StatusMap F) (st : Dispatch F P) → asks (with_statuses s st).calls ≡ asks st.calls
  statuses-asks none st = refl
  statuses-asks (some m) st = refl

  answer-IsHandled :
      (e : Env F P) (w : Workers F P) (r : SignalTaskAddRequest)
      (x : Result ActivityError (TaskAddActivityResponse F)) (st : Dispatch F P)
      → IsHandled (some r) st (after_task_add e w r x (with_call (asked r) st))
  answer-IsHandled e w r (err x) st = record {
    kept = IsKept-itself st.runner;
    asks = asks-ask st.calls r;
  }
  answer-IsHandled e w r (ok x) st =
      let st1 = with_call (asked r) st in
      let st2 = with_statuses x.updated_scaling_status st1 in
      let p = handle_actions-IsPart 2 e w (some r) x.actions st2 in
      record {
        kept =
            IsKept-trans st.runner st2.runner _ (statuses-IsKept x.updated_scaling_status st1)
              p.kept;
        asks = p.asks ∙ statuses-asks x.updated_scaling_status st1 ∙ asks-ask st.calls r;
      }

  signal-IsHandled :
      (e : Env F P) (w : Workers F P) (r : Option SignalTaskAddRequest) (st : Dispatch F P)
      → worker_controller_enabled e st.runner ≡ true
      → st.panicked ≡ false
      → IsHandled r st (handle_no_sync_match_signal e w r st)
  unfolding handle_no_sync_match_signal
  signal-IsHandled e w r st on calm =
      subst
        (λ b. IsHandled r st (
          if_running b st
            (if_running (not (worker_controller_enabled e st.runner)) st (no_sync_match e w r st))))
        (sym calm)
        (subst (λ b. IsHandled r st (if_running (not b) st (no_sync_match e w r st))) (sym on)
          (go r))
    where
      go : (q : Option SignalTaskAddRequest) → IsHandled q st (no_sync_match e w q st)
      go none = record {
        kept = IsKept-itself st.runner;
        asks = sym (appended_nothing (asks st.calls) [] refl);
      }
      go (some q) =
          answer-IsHandled e w q (w.task_add st.calls q st.runner.spec st.runner.scaling_status) st

  -- A number of signals has been handled, of those queued.
  pub record IsAdvanced (e : Env F P) (n : ℕ) (rs : List (Option SignalTaskAddRequest))
      (st st' : Dispatch F P) : Type 0 where
    pub pending : st'.runner.pending ≡ drop n rs
    pub asks : asks st'.calls ≡ asks st.calls ++ signals (take n rs)
    pub active : IsActive e st'.runner
    pub calm : st'.panicked ≡ false

  -- One round, by whether the run ends and what is queued.
  abbrev round :
      Env F P
      → Workers F P
      → ℕ
      → Dispatch F P
      → Bool
      → Bool
      → List (Option SignalTaskAddRequest)
      → Dispatch F P
  round e w n st stop broken rs =
      (if stop
        then (st, [])
        else if broken
        then ((process_next_of e w rs st).0, [])
        else if (process_next_of e w rs st).1
        then process_rounds e w n [] (process_next_of e w rs st).0
        else ((process_next_of e w rs st).0, [])).0

  nothing_asked :
      (e : Env F P) (n : ℕ) (rs : List (Option SignalTaskAddRequest)) (st : Dispatch F P)
      → st.runner.pending ≡ drop n rs
      → signals (take n rs) ≡ []
      → IsActive e st.runner
      → st.panicked ≡ false
      → IsAdvanced e n rs st st
  nothing_asked e n rs st p q h calm = record {
    calm = calm;
    pending = p;
    asks = sym (appended_nothing (asks st.calls) (signals (take n rs)) q);
    active = h;
  }

  rounds-IsAdvanced :
      (e : Env F P) (w : Workers F P) (n : ℕ) (rs : List (Option SignalTaskAddRequest))
      (st : Dispatch F P)
      → st.runner.pending ≡ rs
      → IsActive e st.runner
      → IsTaskAddActivity w
      → st.panicked ≡ false
      → IsAdvanced e n rs st (process_rounds e w n [] st).0
  unfolding process_rounds process_next_queued_task_add_signal
  rounds-IsAdvanced e w zero rs st p h a calm = nothing_asked e 0 rs st p refl h calm
  rounds-IsAdvanced e w (suc n) [] st p h a calm =
      subst
        (λ q. IsAdvanced e (suc n) [] st (
          round e w n st (should_continue_as_new e st.runner) (process_next_of e w q st).0.panicked
            q))
        (sym p)
        (subst (λ b. IsAdvanced e (suc n) [] st (round e w n st b st.panicked [])) (sym h.0)
          (subst (λ b. IsAdvanced e (suc n) [] st (round e w n st false b [])) (sym calm)
            (nothing_asked e (suc n) [] st p refl h calm)))
  rounds-IsAdvanced e w (suc n) (r ∷ rs) st p h a calm =
      let st0 = with_runner (with_pending rs st.runner) st in
      let st1 = handle_no_sync_match_signal e w r st0 in
      let one = signal-IsHandled e w r st0 h.1 calm in
      let calm1 = signal-panicked e w r st0 a calm in
      let later =
        rounds-IsAdvanced e w n rs st1 one.kept.pending
          (IsKept-IsActive e st0.runner st1.runner one.kept h) a calm1 in
      subst
        (λ q. IsAdvanced e (suc n) (r ∷ rs) st (
          round e w n st (should_continue_as_new e st.runner) (process_next_of e w q st).0.panicked
            q))
        (sym p)
        (subst (λ b. IsAdvanced e (suc n) (r ∷ rs) st (round e w n st b st1.panicked (r ∷ rs)))
          (sym h.0)
          (subst (λ b. IsAdvanced e (suc n) (r ∷ rs) st (round e w n st false b (r ∷ rs)))
            (sym calm1)
            (record {
              calm = later.calm;
              pending = later.pending;
              asks =
                  later.asks
                  ∙ ap (λ l. l ++ signals (take n rs)) one.asks
                  ∙ append_assoc (asks st.calls) (signals (r ∷ [])) (signals (take n rs))
                  ∙ ap (λ l. asks st.calls ++ l) (signals-cons r (take n rs));
              active = later.active;
            })))

  -- A batch with no signal arriving handles the first hundred queued signals, each once and in their
  -- order, and leaves the others queued; in an enabled instance whose run goes on, and with the
  -- answers of the task-add activity's code.
  pub process_task_add_batch-IsAdvanced :
      (e : Env F P) (w : Workers F P) (st : Dispatch F P)
      → IsActive e st.runner
      → IsTaskAddActivity w
      → st.panicked ≡ false
      → IsAdvanced e batch_size st.runner.pending st (process_task_add_batch e w [] st).0
  unfolding process_task_add_batch
  process_task_add_batch-IsAdvanced e w st h a calm =
      rounds-IsAdvanced e w batch_size st.runner.pending st refl h a calm

  batches_empty :
      (e : Env F P) (w : Workers F P) (k : ℕ) (rs : List (Option SignalTaskAddRequest))
      (st : Dispatch F P)
      → st.runner.pending ≡ rs
      → IsActive e st.runner
      → IsTaskAddActivity w
      → st.panicked ≡ false
      → length rs ≤ k * batch_size
      → ((batches e w k st).runner.pending ≡ [])
        × (asks (batches e w k st).calls ≡ asks st.calls ++ signals rs)
  unfolding batches
  batches_empty e w zero [] st p h a calm fits = (p, sym (appended_nothing (asks st.calls) [] refl))
  batches_empty e w zero (r ∷ rs) st p h a calm fits = absurd (omega (arith, fits))
  batches_empty e w (suc k) rs st p h a calm fits =
      let st1 = (process_task_add_batch e w [] st).0 in
      let one =
        subst (λ q. IsAdvanced e batch_size q st st1) p
          (process_task_add_batch-IsAdvanced e w st h a calm) in
      let later =
        batches_empty e w k (drop batch_size rs) st1 one.pending one.active a one.calm
          (omega (arith, fits, length-drop batch_size rs)) in
      subst
        (λ b.
          ((if_running b st (batches e w k st1)).runner.pending ≡ [])
          × (asks (if_running b st (batches e w k st1)).calls ≡ asks st.calls ++ signals rs))
        (sym calm)
        (
          later.0,
          later.1
              ∙ ap (λ l. l ++ signals (drop batch_size rs)) one.asks
              ∙ append_assoc (asks st.calls) (signals (take batch_size rs))
                  (signals (drop batch_size rs))
              ∙ ap (λ l. asks st.calls ++ l) (signals-split batch_size rs),
        )

  -- The queue drains: after as many batches as its length needs at a hundred each, it is empty, and
  -- every queued signal has been handled, once and in its order; no signal is lost or handled twice.
  -- This is so in an enabled instance whose run goes on, with no new signal, if the task-add activity
  -- answers what its code computes or an error, whatever the other activities answer.
  pub batches-drain :
      (e : Env F P) (w : Workers F P) (k : ℕ) (st : Dispatch F P)
      → IsActive e st.runner
      → IsTaskAddActivity w
      → st.panicked ≡ false
      → length st.runner.pending ≤ k * batch_size
      → ((batches e w k st).runner.pending ≡ [])
        × (asks (batches e w k st).calls ≡ asks st.calls ++ signals st.runner.pending)
  batches-drain e w k st h a calm fits = batches_empty e w k st.runner.pending st refl h a calm fits
