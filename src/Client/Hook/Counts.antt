-- ===== src/Client/Hook/Counts.antt =====
-- hook.go: where the tasks go that the hook counts.
use temporal_auto_scaled_wor.Prelude.{
  Option, none, ℕ, ◌+◌, ◌≤◌, ◌<◌, suc, ℤ, pos, negsuc, pos_part, half64, add64, ◌+ℤ◌, wrap64_lem,
  wrap64, IsInt64, Bool, true, false, String, some, List, [], ◌∷◌, Map, lookup, lookup-insert,
  eq_iff, str_eq, if◌then◌else◌, ◌≡◌, refl, arith, length, Bool-cases, inl, inr, ap, ◌∙◌, IsNonNeg,
}
use temporal_auto_scaled_wor.Iface.Types.{SignalTaskAddRequest}
use temporal_auto_scaled_wor.Client.Hook.{
  SignalBatchDetails, TaskAddEvent, BatchAnswer, last_or_new, count_match, kept_details,
  counted_batch, is_due, batch_match_signals, TaskHook, signal_of, process_task_add,
}

abbrev pub counter : Bool → SignalBatchDetails → ℤ
counter true d = d.sync_match_count
counter false d = d.no_sync_match_count

abbrev pub one_if : Bool → ℕ
one_if true = 1
one_if false = 0

abbrev pub same : Bool → Bool → Bool
same true b = b
same false b = if b then false else true

-- The tasks of an instance that are counted and not yet signalled.
abbrev pub pending : String → Bool → Map SignalBatchDetails → ℕ
pending k b m = pos_part (counter b (last_or_new (lookup k m)))

-- Every stored count is at least 0 and at most a bound.
abbrev pub IsCounted : ℕ → Map SignalBatchDetails → Type 0
IsCounted n m =
    (k : String) (b : Bool) → IsNonNeg (counter b (last_or_new (lookup k m))) × (pending k b m ≤ n)

-- The count that a call returns, if the signal is not skipped.
abbrev pub batch_count : Bool → BatchAnswer → ℕ
batch_count true a = if a.skip then 0 else pos_part a.sync_match_batch_count
batch_count false a = if a.skip then 0 else pos_part a.no_sync_match_batch_count

add_one :
    (z : ℤ) (n : ℕ)
    → IsNonNeg z
    → pos_part z ≤ n
    → suc n < half64
    → IsNonNeg (add64 z (pos 1)) × (pos_part (add64 z (pos 1)) ≡ 1 + pos_part z)
unfolding add64 ◌+ℤ◌
add_one (pos m) n h l s =
    let small : IsInt64 (pos m +ℤ pos 1) = ground arith in
    let e : wrap64 (pos m +ℤ pos 1) ≡ pos m +ℤ pos 1 = wrap64_lem (pos m +ℤ pos 1) small in
    rw (e) (ground arith, ground arith)
add_one (negsuc m) n h l s = absurd (ground arith)

-- What counting a task does to either count.
count_match-counter :
    (b s : Bool) (d : SignalBatchDetails) (n : ℕ)
    → IsNonNeg (counter b d)
    → pos_part (counter b d) ≤ n
    → suc n < half64
    → IsNonNeg (counter b (count_match s d))
      × (pos_part (counter b (count_match s d)) ≡ one_if (same b s) + pos_part (counter b d))
count_match-counter true true d n h l s = add_one d.sync_match_count n h l s
count_match-counter true false d n h l s = (h, omega arith)
count_match-counter false true d n h l s = (h, omega arith)
count_match-counter false false d n h l s = add_one d.no_sync_match_count n h l s

batch_count-due :
    (b due : Bool) (now : ℤ) (d : SignalBatchDetails) (m : Map SignalBatchDetails)
    → batch_count b (record {
      sync_match_batch_count = d.sync_match_count;
      no_sync_match_batch_count = d.no_sync_match_count;
      skip = if due then false else true;
      last_signal_details = m;
    })
        + pos_part (counter b (kept_details due now d))
      ≡ pos_part (counter b d)
batch_count-due true true now d m = omega arith
batch_count-due true false now d m = omega arith
batch_count-due false true now d m = omega arith
batch_count-due false false now d m = omega arith

kept_details-counter :
    (b due : Bool) (now : ℤ) (d : SignalBatchDetails) (n : ℕ)
    → IsNonNeg (counter b d)
    → pos_part (counter b d) ≤ n
    → IsNonNeg (counter b (kept_details due now d))
      × (pos_part (counter b (kept_details due now d)) ≤ n)
kept_details-counter true true now d n h l = (refl, omega arith)
kept_details-counter false true now d n h l = (refl, omega arith)
kept_details-counter true false now d n h l = (h, l)
kept_details-counter false false now d n h l = (h, l)

-- The number of events of an instance that are sync matches, or that are not.
abbrev pub arrived_one : String → Bool → TaskAddEvent → ℕ
arrived_one k b e = if str_eq e.workflow_id k then one_if (same b e.is_sync_match) else 0

-- What a call reports of an instance.
abbrev pub reported_one : String → Bool → TaskAddEvent → Map SignalBatchDetails → ℕ
reported_one k b e m = if str_eq e.workflow_id k then batch_count b (batch_match_signals e m) else 0

abbrev pub after : TaskAddEvent → Map SignalBatchDetails → Map SignalBatchDetails
after e m = (batch_match_signals e m).last_signal_details

lookup-after :
    (k : String) (e : TaskAddEvent) (m : Map SignalBatchDetails)
    → lookup k (after e m) ≡ (
        if str_eq e.workflow_id k
        then some (kept_details (is_due e (counted_batch e m)) e.now (counted_batch e m))
        else lookup k m)
unfolding batch_match_signals
lookup-after k e m = lookup-insert e.workflow_id k _ m

at_most_one : (s : Bool) (x y n : ℕ) → x ≡ one_if s + y → y ≤ n → x ≤ suc n
at_most_one true x y n e l = omega arith
at_most_one false x y n e l = omega arith

after-IsCounted :
    (n : ℕ) (e : TaskAddEvent) (m : Map SignalBatchDetails)
    → suc n < half64
    → IsCounted n m
    → IsCounted (suc n) (after e m)
unfolding counted_batch
after-IsCounted n e m s h k b =
    let counted =
      count_match-counter b e.is_sync_match (last_or_new (lookup e.workflow_id m)) n
        (h e.workflow_id b).0 (h e.workflow_id b).1 s in
    rw (lookup-after k e m) (elim (Bool-cases (str_eq e.workflow_id k)) [
      | inl same_key ↦ rw (same_key) (
          kept_details-counter b (is_due e (counted_batch e m)) e.now (counted_batch e m) (suc n)
            counted.0 (at_most_one (same b e.is_sync_match) _ _ n counted.1 (h e.workflow_id b).1))
      | inr other_key ↦ rw (other_key) ((h k b).0, omega (arith, (h k b).1))
    ])

batch-pending :
    (n : ℕ) (k : String) (b : Bool) (e : TaskAddEvent) (m : Map SignalBatchDetails)
    → suc n < half64
    → IsCounted n m
    → reported_one k b e m + pending k b (after e m) ≡ arrived_one k b e + pending k b m
unfolding batch_match_signals counted_batch
batch-pending n k b e m s h =
    let counted =
      count_match-counter b e.is_sync_match (last_or_new (lookup e.workflow_id m)) n
        (h e.workflow_id b).0 (h e.workflow_id b).1 s in
    rw (lookup-after k e m) (elim (Bool-cases (str_eq e.workflow_id k)) [
      | inl same_key ↦ rw (same_key) (
          batch_count-due b (is_due e (counted_batch e m)) e.now (counted_batch e m) (after e m)
          ∙ counted.1
          ∙ ap (λ j. one_if (same b e.is_sync_match) + pending j b m)
              ((eq_iff e.workflow_id k).0 same_key))
      | inr other_key ↦ rw (other_key)
    ])

-- What a sequence of calls reports, what it leaves, and what arrived in it.
abbrev pub reported : String → Bool → List TaskAddEvent → Map SignalBatchDetails → ℕ
reported k b [] m = 0
reported k b (e ∷ es) m = reported_one k b e m + reported k b es (after e m)

abbrev pub after_all : List TaskAddEvent → Map SignalBatchDetails → Map SignalBatchDetails
after_all [] m = m
after_all (e ∷ es) m = after_all es (after e m)

abbrev pub arrived : String → Bool → List TaskAddEvent → ℕ
arrived k b [] = 0
arrived k b (e ∷ es) = arrived_one k b e + arrived k b es

-- Every task that arrives is returned in one batch that is not skipped, or still counted.
reported-arrived :
    (n : ℕ) (k : String) (b : Bool) (es : List TaskAddEvent) (m : Map SignalBatchDetails)
    → n + length es < half64
    → IsCounted n m
    → reported k b es m + pending k b (after_all es m) ≡ arrived k b es + pending k b m
reported-arrived n k b [] m s h = refl
reported-arrived n k b (e ∷ es) m s h = omega (
  arith,
  batch-pending n k b e m (omega arith) h,
  reported-arrived (suc n) k b es (after e m) (omega arith) (after-IsCounted n e m (omega arith) h),
)

-- A call of the hook in an enabled namespace: what the client answers to whether the instance exists
-- (`none` is an error), and the event.
abbrev pub HookCall : Type 0
HookCall = Option Bool × TaskAddEvent

abbrev pub events : List HookCall → List TaskAddEvent
events [] = []
events ((exists, e) ∷ cs) = e ∷ events cs

abbrev pub sent_count : Bool → Option SignalTaskAddRequest → ℕ
sent_count b none = 0
sent_count true (some r) = pos_part r.sync_match_signals_since_last
sent_count false (some r) = pos_part r.no_sync_match_signals_since_last

-- The tasks of an instance in the signals that the hook sends.
abbrev pub sent : TaskHook → String → Bool → List HookCall → Map SignalBatchDetails → ℕ
sent h k b [] m = 0
sent h k b ((exists, e) ∷ cs) m =
    let (request, m') = process_task_add h true exists (some e) m in
    (if str_eq e.workflow_id k then sent_count b request else 0) + sent h k b cs m'

abbrev pub is_there : Option Bool → Bool
is_there none = false
is_there (some b) = b

-- The tasks of an instance that are dropped: their batch is due, and the instance is not there or
-- the answer is an error.
abbrev pub dropped : TaskHook → String → Bool → List HookCall → Map SignalBatchDetails → ℕ
dropped h k b [] m = 0
dropped h k b ((exists, e) ∷ cs) m =
    let (request, m') = process_task_add h true exists (some e) m in
    (if is_there exists then 0 else reported_one k b e m) + dropped h k b cs m'

abbrev pub after_calls : TaskHook → List HookCall → Map SignalBatchDetails → Map SignalBatchDetails
after_calls h [] m = m
after_calls h ((exists, e) ∷ cs) m = after_calls h cs (process_task_add h true exists (some e) m).1

batch-sent :
    (h : TaskHook) (b sync : Bool) (a : BatchAnswer) (exists : Option Bool)
    → sent_count b (signal_of h sync a exists) + (if is_there exists then 0 else batch_count b a)
      ≡ batch_count b a
unfolding signal_of
batch-sent h b sync a none = omega arith
batch-sent h b sync a (some false) = omega arith
batch-sent h true sync a (some true) = elim (Bool-cases a.skip) [
  | inl skipped ↦ rw skipped
  | inr due ↦ rw due (omega arith)
]
batch-sent h false sync a (some true) = elim (Bool-cases a.skip) [
  | inl skipped ↦ rw skipped
  | inr due ↦ rw due (omega arith)
]

call-sent :
    (h : TaskHook) (k : String) (b : Bool) (exists : Option Bool) (e : TaskAddEvent)
    (m : Map SignalBatchDetails)
    → (if str_eq e.workflow_id k
          then sent_count b (process_task_add h true exists (some e) m).0
          else 0)
        + (if is_there exists then 0 else reported_one k b e m)
      ≡ reported_one k b e m
unfolding process_task_add
call-sent h k b exists e m =
    let one = batch-sent h b e.is_sync_match (batch_match_signals e m) exists in ground (arith, one)

calls-sent :
    (h : TaskHook) (k : String) (b : Bool) (cs : List HookCall) (m : Map SignalBatchDetails)
    → sent h k b cs m + dropped h k b cs m ≡ reported k b (events cs) m
unfolding process_task_add
calls-sent h k b [] m = refl
calls-sent h k b ((exists, e) ∷ cs) m =
    omega (arith, call-sent h k b exists e m, calls-sent h k b cs (after e m))

calls-after :
    (h : TaskHook) (cs : List HookCall) (m : Map SignalBatchDetails)
    → after_calls h cs m ≡ after_all (events cs) m
unfolding process_task_add
calls-after h [] m = refl
calls-after h ((exists, e) ∷ cs) m = calls-after h cs (after e m)

-- Over any calls of the hook in an enabled namespace, each task of an instance counts once and in its
-- own counter: in one signal that is sent, or among those dropped, whose batch was due while the
-- client did not answer that the instance exists, or among those still counted. The counts start
-- between 0 and a bound, and the bound and the number of calls stay below 2 ^ 63 together.
pub process_task_add-sent :
    (n : ℕ) (h : TaskHook) (k : String) (b : Bool) (cs : List HookCall) (m : Map SignalBatchDetails)
    → n + length (events cs) < half64
    → IsCounted n m
    → sent h k b cs m + dropped h k b cs m + pending k b (after_calls h cs m)
      ≡ arrived k b (events cs) + pending k b m
process_task_add-sent n h k b cs m small counted =
    rw (calls-sent h k b cs m, calls-after h cs m)
      (reported-arrived n k b (events cs) m small counted)
