-- ===== src/Client/Hook.antt =====
-- wci/client/hook.go: the hook that the matching service calls for each task that is added. It
-- counts the tasks of an instance and lets a signal through at most once in an interval. The
-- configuration's intervals are part of an event, as they may change between two of them, and so is
-- the clock; the lock around the map is left out. No nil is ever stored in the map.
pub mod Counts
use temporal_auto_scaled_wor.Iface.Types.{TaskQueueType, SignalTaskAddRequest}
use temporal_auto_scaled_wor.Prelude.{
  ℤ, pos, ltb_ℤ, leb_ℤ, ◌+ℤ◌, add64, milliseconds, Bool, true, false, String, Option, none, some,
  List, [], ◌∷◌, Map, lookup, insert, if◌then◌else◌,
}

pub record SignalBatchDetails : Type 0 where
  pub timestamp : ℤ
  pub sync_match_count : ℤ
  pub no_sync_match_count : ℤ

-- minSignalIntervalSyncMatch and minSignalIntervalNoSyncMatch, in milliseconds.
pub record Intervals : Type 0 where
  pub sync_match : ℤ
  pub no_sync_match : ℤ

abbrev pub sent_at : ℤ → SignalBatchDetails
sent_at t = record { timestamp = t; sync_match_count = pos 0; no_sync_match_count = pos 0 }

abbrev pub last_or_new : Option SignalBatchDetails → SignalBatchDetails
last_or_new none = sent_at (pos 0)
last_or_new (some d) = d

abbrev pub count_match : Bool → SignalBatchDetails → SignalBatchDetails
count_match true d = record {
  timestamp = d.timestamp;
  sync_match_count = add64 d.sync_match_count (pos 1);
  no_sync_match_count = d.no_sync_match_count;
}
count_match false d = record {
  timestamp = d.timestamp;
  sync_match_count = d.sync_match_count;
  no_sync_match_count = add64 d.no_sync_match_count (pos 1);
}

-- An interval that is not positive is replaced by its default.
abbrev pub interval_or : ℤ → ℤ → ℤ
interval_or default i = if leb_ℤ i (pos 0) then default else i

abbrev pub send_by : Intervals → SignalBatchDetails → ℤ
send_by i d =
    d.timestamp
    +ℤ milliseconds (
        if ltb_ℤ (pos 0) d.no_sync_match_count
        then interval_or (pos 500) i.no_sync_match
        else interval_or (pos 60000) i.sync_match)

-- What the counted batch leaves in the map.
abbrev pub kept_details : Bool → ℤ → SignalBatchDetails → SignalBatchDetails
kept_details true now counted = sent_at now
kept_details false now counted = counted

-- The counts returned, and whether the signal is skipped, with the map afterwards.
pub record BatchAnswer : Type 0 where
  pub sync_match_batch_count : ℤ
  pub no_sync_match_batch_count : ℤ
  pub skip : Bool
  pub last_signal_details : Map SignalBatchDetails

pub record TaskAddEvent : Type 0 where
  pub workflow_id : String
  pub is_sync_match : Bool
  pub now : ℤ
  pub intervals : Intervals

unfoldable pub counted_batch : TaskAddEvent → Map SignalBatchDetails → SignalBatchDetails
counted_batch e m = count_match e.is_sync_match (last_or_new (lookup e.workflow_id m))

unfoldable pub is_due : TaskAddEvent → SignalBatchDetails → Bool
is_due e counted = ltb_ℤ (send_by e.intervals counted) e.now

unfoldable pub batch_match_signals : TaskAddEvent → Map SignalBatchDetails → BatchAnswer
batch_match_signals e m =
    let counted = counted_batch e m in
    let due = is_due e counted in
    record {
      sync_match_batch_count = counted.sync_match_count;
      no_sync_match_batch_count = counted.no_sync_match_count;
      skip = if due then false else true;
      last_signal_details = insert e.workflow_id (kept_details due e.now counted) m;
    }

-- The queue that a hook is made for.
pub record TaskHook : Type 0 where
  pub task_queue_name : String
  pub task_queue_type : TaskQueueType

-- The request of a batch, if it is not skipped and the instance exists; no answer to whether it
-- exists is an error.
unfoldable pub signal_of : TaskHook → Bool → BatchAnswer → Option Bool → Option SignalTaskAddRequest
signal_of h is_sync a (some true) =
    if a.skip
    then none
    else some (record {
      task_queue_name = h.task_queue_name;
      task_queue_type = h.task_queue_type;
      is_sync_match = is_sync;
      sync_match_signals_since_last = a.sync_match_batch_count;
      no_sync_match_signals_since_last = a.no_sync_match_batch_count;
    })
signal_of h is_sync a (some false) = none
signal_of h is_sync a none = none

-- `none` is an event, or a version of it, that is nil; `true` that the controller is enabled in the
-- namespace.
unfoldable pub process_task_add :
    TaskHook
    → Bool
    → Option Bool
    → Option TaskAddEvent
    → Map SignalBatchDetails
    → Option SignalTaskAddRequest × Map SignalBatchDetails
process_task_add h enabled exists none m = (none, m)
process_task_add h false exists (some e) m = (none, m)
process_task_add h true exists (some e) m =
    let a = batch_match_signals e m in (signal_of h e.is_sync_match a exists, a.last_signal_details)
