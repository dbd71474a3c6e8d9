-- ===== src/Workflow/Actions/Batch.antt =====
-- workflow.go: processTaskAddBatch, which the run loop calls to work off the queue.
pub mod Progress
use temporal_auto_scaled_wor.Prelude.{
  ℕ, zero, suc, ◌+◌, ◌*◌, ◌≤◌, ◌-◌, ◌<◌, if◌then◌else◌, Bool, true, false, not, ◌||◌, ◌&&◌, leb,
  Option, none, some, List, [], ◌∷◌, ◌++◌, length, is_empty, Float64, Result, ok, err, ◌≡◌, refl,
  sym, ap, subst, ◌∙◌, Bool-cases, Result-cases, inl, inr, arith,
}
use temporal_auto_scaled_wor.Iface.Types.{SignalTaskAddRequest}
use temporal_auto_scaled_wor.Activities.{ActivityError, StatusMap}
use temporal_auto_scaled_wor.Activities.TaskAdd.{TaskAddActivityResponse}
use temporal_auto_scaled_wor.Workflow.{
  Runner, Env, worker_controller_enabled, should_continue_as_new,
}
use temporal_auto_scaled_wor.Workflow.Queue.{queue_task_add_signal, take, with_pending}
use temporal_auto_scaled_wor.Workflow.Actions.{
  Call, asked, invoked, resized, decided, Workers, Dispatch, with_call, if_running, with_runner,
  with_statuses, after_task_add, no_sync_match, handle_actions, handle_no_sync_match_signal,
  process_next_of, process_next_queued_task_add_signal,
}
use temporal_auto_scaled_wor.Workflow.Actions.Safety.{
  IsKept, IsPart, asks, IsKept-itself, IsKept-trans, handle_actions-IsPart,
}

-- taskAddSignalBatchSizePerRunLoopIteration.
abbrev pub batch_size : ℕ
batch_size = 100

module _ {F : Float64} {P : Type 0} where
  -- The selector receives one signal that waits in the channel into the queue.
  abbrev pub select :
      List (Option SignalTaskAddRequest)
      → Dispatch F P
      → Dispatch F P × List (Option SignalTaskAddRequest)
  select [] st = (st, [])
  select (c ∷ cs) st = (with_runner (queue_task_add_signal c st.runner) st, cs)

  -- The loop with its rounds left; the channel holds the signals that wait. A panic ends it, as it
  -- fails the workflow task.
  unfoldable pub process_rounds :
      Env F P
      → Workers F P
      → ℕ
      → List (Option SignalTaskAddRequest)
      → Dispatch F P
      → Dispatch F P × List (Option SignalTaskAddRequest)
  process_rounds e w zero channel st = (st, channel)
  process_rounds e w (suc n) channel st =
      let processed = process_next_queued_task_add_signal e w st in
      let selected = select channel processed.0 in
      let rest = process_rounds e w n selected.1 selected.0 in
      if should_continue_as_new e st.runner
      then (st, channel)
      else if processed.0.panicked
      then (processed.0, channel)
      else if not (is_empty channel) || processed.1
      then rest
      else (processed.0, channel)

  unfoldable pub process_task_add_batch :
      Env F P
      → Workers F P
      → List (Option SignalTaskAddRequest)
      → Dispatch F P
      → Dispatch F P × List (Option SignalTaskAddRequest)
  process_task_add_batch e w channel st = process_rounds e w batch_size channel st

  -- The batches of the run loop, with no signal arriving and no timer due.
  unfoldable pub batches : Env F P → Workers F P → ℕ → Dispatch F P → Dispatch F P
  batches e w zero st = st
  batches e w (suc n) st =
      if_running st.panicked st (batches e w n (process_task_add_batch e w [] st).0)
