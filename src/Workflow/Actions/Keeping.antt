-- ===== src/Workflow/Actions/Keeping.antt =====
-- workflow.go: the handlers of signals and polls leave the specification and the deletion alone.
use temporal_auto_scaled_wor.Prelude.{
  ℕ, zero, suc, if◌then◌else◌, Bool, true, false, not, ◌||◌, is_empty, Option, none, some, List, [],
  ◌∷◌, Float64, Result, ok, err, ◌≡◌, refl, ◌∙◌, Bool-cases, inl, inr,
}
use temporal_auto_scaled_wor.Iface.Types.{SignalTaskAddRequest}
use temporal_auto_scaled_wor.Iface.SpecUpdate.{current_groups}
use temporal_auto_scaled_wor.Activities.{ActivityError, StatusMap}
use temporal_auto_scaled_wor.Activities.PullStats.{PullStatsResponse}
use temporal_auto_scaled_wor.Activities.TaskAdd.{TaskAddActivityResponse}
use temporal_auto_scaled_wor.Workflow.{
  Runner, Env, worker_controller_enabled, should_continue_as_new,
}
use temporal_auto_scaled_wor.Workflow.Queue.{
  queue_task_add_signal, is_full, with_pending, drain_task_add_signal_channel,
  drain_pending_task_add_signals, drain_before_continue_as_new,
}
use temporal_auto_scaled_wor.Workflow.Actions.{
  Workers, Dispatch, asked, with_call, if_running, with_runner, with_statuses, after_task_add,
  no_sync_match, handle_actions, handle_no_sync_match_signal, process_next_of,
  process_next_queued_task_add_signal, after_pull, pull_stats_and_update, max_poll_seconds,
  handle_all, process_pending_task_add_signals,
}
use temporal_auto_scaled_wor.Workflow.Actions.Safety.{handle_actions-IsPart}
use temporal_auto_scaled_wor.Workflow.Actions.Batch.{select, process_rounds, process_task_add_batch}

module _ {F : Float64} {P : Type 0} where
  -- What leaves the specification and the deletion alone.
  abbrev pub Keeps : Runner F P → Runner F P → Type 0
  Keeps d d' = (d'.delete_instance ≡ d.delete_instance) × (d'.spec ≡ d.spec)

  Keeps-trans : (a b c : Runner F P) → Keeps a b → Keeps b c → Keeps a c
  Keeps-trans a b c f g = (g.0 ∙ f.0, g.1 ∙ f.1)

  pub queue_task_add_signal-Keeps :
      (r : Option SignalTaskAddRequest) (d : Runner F P) → Keeps d (queue_task_add_signal r d)
  unfolding queue_task_add_signal
  queue_task_add_signal-Keeps none d = (refl, refl)
  queue_task_add_signal-Keeps (some r) d = elim (Bool-cases (is_full d)) [
    | inl full ↦ rw full (refl, refl)
    | inr room ↦ rw room (refl, refl)
  ]

  drain_task_add_signal_channel-Keeps :
      (rs : List (Option SignalTaskAddRequest)) (d : Runner F P)
      → Keeps d (drain_task_add_signal_channel rs d)
  unfolding drain_task_add_signal_channel
  drain_task_add_signal_channel-Keeps [] d = (refl, refl)
  drain_task_add_signal_channel-Keeps (r ∷ rs) d =
      let d' = queue_task_add_signal r d in
      Keeps-trans d d' (drain_task_add_signal_channel rs d') (queue_task_add_signal-Keeps r d)
        (drain_task_add_signal_channel-Keeps rs d')

  drain_pending_task_add_signals-Keeps :
      (rs : List (Option SignalTaskAddRequest)) (d : Runner F P)
      → Keeps d (drain_pending_task_add_signals rs d)
  unfolding drain_pending_task_add_signals
  drain_pending_task_add_signals-Keeps [] d = (refl, refl)
  drain_pending_task_add_signals-Keeps (none ∷ rs) d = drain_pending_task_add_signals-Keeps rs d
  drain_pending_task_add_signals-Keeps (some r ∷ rs) d = drain_pending_task_add_signals-Keeps rs _

  pub drain_before_continue_as_new-Keeps :
      (rs : List (Option SignalTaskAddRequest)) (d : Runner F P)
      → Keeps d (drain_before_continue_as_new rs d)
  drain_before_continue_as_new-Keeps rs d = go d.limit_pending
    where
      go :
          (b : Bool)
          → Keeps d (
              if b then drain_task_add_signal_channel rs d else drain_pending_task_add_signals rs d)
      go true = drain_task_add_signal_channel-Keeps rs d
      go false = drain_pending_task_add_signals-Keeps rs d

  -- Of two dispatches.
  abbrev KeepsAll : Dispatch F P → Dispatch F P → Type 0
  KeepsAll st st' = Keeps st.runner st'.runner

  statuses-KeepsAll : (s : StatusMap F) (st : Dispatch F P) → KeepsAll st (with_statuses s st)
  statuses-KeepsAll none st = (refl, refl)
  statuses-KeepsAll (some m) st = (refl, refl)

  -- The statuses of an answer and the dispatch of its actions.
  actions-KeepsAll :
      (e : Env F P) (w : Workers F P) (r : Option SignalTaskAddRequest) (s : StatusMap F)
      (xs : List _) (st : Dispatch F P)
      → KeepsAll st (handle_actions 2 e w r xs (with_statuses s st))
  actions-KeepsAll e w r s xs st =
      let p = (handle_actions-IsPart 2 e w r xs (with_statuses s st)).kept in
      Keeps-trans st.runner (with_statuses s st).runner
        (handle_actions 2 e w r xs (with_statuses s st)).runner (statuses-KeepsAll s st)
        (p.delete_instance, p.spec)

  if_running-KeepsAll :
      (b : Bool) (st st' : Dispatch F P) → KeepsAll st st' → KeepsAll st (if_running b st st')
  if_running-KeepsAll true st st' h = (refl, refl)
  if_running-KeepsAll false st st' h = h

  answer-KeepsAll :
      (e : Env F P) (w : Workers F P) (r : SignalTaskAddRequest)
      (x : Result ActivityError (TaskAddActivityResponse F)) (st : Dispatch F P)
      → KeepsAll st (after_task_add e w r x (with_call (asked r) st))
  answer-KeepsAll e w r (err x) st = (refl, refl)
  answer-KeepsAll e w r (ok x) st =
      actions-KeepsAll e w (some r) x.updated_scaling_status x.actions (with_call (asked r) st)

  no_sync_match-KeepsAll :
      (e : Env F P) (w : Workers F P) (r : Option SignalTaskAddRequest) (st : Dispatch F P)
      → KeepsAll st (no_sync_match e w r st)
  no_sync_match-KeepsAll e w none st = (refl, refl)
  no_sync_match-KeepsAll e w (some r) st =
      answer-KeepsAll e w r (w.task_add st.calls r st.runner.spec st.runner.scaling_status) st

  pub handle_no_sync_match_signal-Keeps :
      (e : Env F P) (w : Workers F P) (r : Option SignalTaskAddRequest) (st : Dispatch F P)
      → Keeps st.runner (handle_no_sync_match_signal e w r st).runner
  unfolding handle_no_sync_match_signal
  handle_no_sync_match_signal-Keeps e w r st = if_running-KeepsAll st.panicked st _ (
      if_running-KeepsAll (not (worker_controller_enabled e st.runner)) st (no_sync_match e w r st)
        (no_sync_match-KeepsAll e w r st))

  handle_all-KeepsAll :
      (e : Env F P) (w : Workers F P) (rs : List (Option SignalTaskAddRequest)) (st : Dispatch F P)
      → KeepsAll st (handle_all e w rs st)
  unfolding handle_all
  handle_all-KeepsAll e w [] st = (refl, refl)
  handle_all-KeepsAll e w (r ∷ rs) st =
      let st' = handle_no_sync_match_signal e w r st in
      Keeps-trans st.runner st'.runner (handle_all e w rs st').runner
        (handle_no_sync_match_signal-Keeps e w r st) (handle_all-KeepsAll e w rs st')

  pub process_pending_task_add_signals-Keeps :
      (e : Env F P) (w : Workers F P) (st : Dispatch F P)
      → Keeps st.runner (process_pending_task_add_signals e w st).runner
  unfolding process_pending_task_add_signals
  process_pending_task_add_signals-Keeps e w st =
      handle_all-KeepsAll e w st.runner.pending (with_runner (with_pending [] st.runner) st)

  next-KeepsAll :
      (e : Env F P) (w : Workers F P) (rs : List (Option SignalTaskAddRequest)) (st : Dispatch F P)
      → KeepsAll st (process_next_of e w rs st).0
  next-KeepsAll e w [] st = (refl, refl)
  next-KeepsAll e w (r ∷ rs) st =
      handle_no_sync_match_signal-Keeps e w r (with_runner (with_pending rs st.runner) st)

  select-KeepsAll :
      (channel : List (Option SignalTaskAddRequest)) (st : Dispatch F P)
      → KeepsAll st (select channel st).0
  select-KeepsAll [] st = (refl, refl)
  select-KeepsAll (c ∷ cs) st = queue_task_add_signal-Keeps c st.runner

  rounds-KeepsAll :
      (e : Env F P) (w : Workers F P) (n : ℕ) (channel : List (Option SignalTaskAddRequest))
      (st : Dispatch F P)
      → KeepsAll st (process_rounds e w n channel st).0
  unfolding process_rounds process_next_queued_task_add_signal
  rounds-KeepsAll e w zero channel st = (refl, refl)
  rounds-KeepsAll e w (suc n) channel st =
      let next = process_next_of e w st.runner.pending st in
      let chosen = select channel next.0 in
      let first = next-KeepsAll e w st.runner.pending st in
      let rest =
        Keeps-trans st.runner chosen.0.runner (process_rounds e w n chosen.1 chosen.0).0.runner
          (Keeps-trans st.runner next.0.runner chosen.0.runner first
            (select-KeepsAll channel next.0))
          (rounds-KeepsAll e w n chosen.1 chosen.0) in
      either (should_continue_as_new e st.runner) next.0.panicked (not (is_empty channel) || next.1)
        (process_rounds e w n chosen.1 chosen.0) (next.0, channel) rest first
    where
      either :
          (stop broken more : Bool) (a b : Dispatch F P × List (Option SignalTaskAddRequest))
          → KeepsAll st a.0
          → KeepsAll st b.0
          → KeepsAll st
              (if stop then (st, channel) else if broken then b else if more then a else b).0
      either true broken more a b h k = (refl, refl)
      either false true more a b h k = k
      either false false true a b h k = h
      either false false false a b h k = k

  pub process_task_add_batch-Keeps :
      (e : Env F P) (w : Workers F P) (channel : List (Option SignalTaskAddRequest))
      (st : Dispatch F P)
      → Keeps st.runner (process_task_add_batch e w channel st).0.runner
  unfolding process_task_add_batch
  process_task_add_batch-Keeps e w channel st = rounds-KeepsAll e w _ channel st

  after_pull-KeepsAll :
      (e : Env F P) (w : Workers F P) (x : Result ActivityError (PullStatsResponse F))
      (st : Dispatch F P)
      → KeepsAll st (after_pull e w x st).0
  after_pull-KeepsAll e w (err x) st = (refl, refl)
  after_pull-KeepsAll e w (ok x) st =
      actions-KeepsAll e w none x.updated_scaling_status x.actions st

  pub pull_stats_and_update-Keeps :
      (e : Env F P) (w : Workers F P) (st : Dispatch F P)
      → Keeps st.runner (pull_stats_and_update e w st).0.runner
  unfolding pull_stats_and_update
  pull_stats_and_update-Keeps e w st =
      go (is_empty (current_groups st.runner.spec) || not (worker_controller_enabled e st.runner))
    where
      go :
          (b : Bool)
          → KeepsAll st
              (if b
                then (st, max_poll_seconds)
                else after_pull e w (w.pull st.runner.spec st.runner.scaling_status) st).0
      go true = (refl, refl)
      go false = after_pull-KeepsAll e w (w.pull st.runner.spec st.runner.scaling_status) st
