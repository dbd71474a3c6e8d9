-- ===== src/Tests/Client.antt =====
-- wci/client: the theorems at a concrete instance.
use temporal_auto_scaled_wor.Prelude.{
  none, some, ℕ, pos, true, false, codes, List, [], ◌∷◌, ◌≡◌, refl, arith, ◌+◌, ◌↔◌, lookup, insert,
  ◌+ℤ◌, milliseconds, add64, wrap64,
}
use temporal_auto_scaled_wor.Iface.Types.{workflow}
use temporal_auto_scaled_wor.Client.Id.{delimiter, generate_workflow_id, version_of_workflow_id}
use temporal_auto_scaled_wor.Client.Id.RoundTrip.{
  IsFree, version_of_workflow_id-generate_workflow_id_iff,
}
use temporal_auto_scaled_wor.Client.Hook.{
  TaskHook, TaskAddEvent, Intervals, batch_match_signals, is_due, counted_batch,
}
use temporal_auto_scaled_wor.Client.Hook.Counts.{
  reported, pending, arrived, sent, dropped, after_calls, HookCall, events, process_task_add-sent,
  IsCounted,
}

abbrev tagged_build : List ℕ
tagged_build = codes "app:v1"

version_of_workflow_id-generate_workflow_id_iff_example :
    (version_of_workflow_id
        (generate_workflow_id (record { deployment_name = codes "web"; build_id = tagged_build }))
      ≡ record { deployment_name = codes "web"; build_id = tagged_build })
    ↔ IsFree delimiter tagged_build
version_of_workflow_id-generate_workflow_id_iff_example =
    version_of_workflow_id-generate_workflow_id_iff (codes "web") tagged_build refl

abbrev defaults : Intervals
defaults = record { sync_match = pos 0; no_sync_match = pos 0 }

abbrev no_sync_at : ℕ → TaskAddEvent
no_sync_at t = record {
  workflow_id = "a";
  is_sync_match = false;
  now = pos t;
  intervals = defaults;
}

-- Half a second is 500000000.
abbrev three_tasks : List TaskAddEvent
three_tasks = no_sync_at 600000000 ∷ no_sync_at 700000000 ∷ no_sync_at 1200000001 ∷ []

three_reported : reported "a" false three_tasks [] ≡ 3
unfolding lookup insert batch_match_signals is_due counted_batch ◌+ℤ◌ milliseconds add64 wrap64
three_reported = refl

empty_IsCounted : IsCounted 0 []
unfolding lookup
empty_IsCounted k true = (refl, omega arith)
empty_IsCounted k false = (refl, omega arith)

abbrev hook : TaskHook
hook = record { task_queue_name = "q"; task_queue_type = workflow }

-- The instance exists at the first and the second call; at the third the client fails.
abbrev three_calls : List HookCall
three_calls =
    (some true, no_sync_at 600000000)
    ∷ (some true, no_sync_at 700000000)
    ∷ (none, no_sync_at 1200000001)
    ∷ []

process_task_add-sent_example :
    sent hook "a" false three_calls []
      + dropped hook "a" false three_calls []
      + pending "a" false (after_calls hook three_calls [])
    ≡ arrived "a" false (events three_calls) + pending "a" false []
process_task_add-sent_example =
    process_task_add-sent 0 hook "a" false three_calls [] (omega arith) empty_IsCounted
