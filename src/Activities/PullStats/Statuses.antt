-- ===== src/Activities/PullStats/Statuses.antt =====
-- PullStats: the status that it leaves for each group.
use temporal_auto_scaled_wor.Prelude.{
  if◌then◌else◌, true, false, String, str_eq, eq_iff, Option, none, some, List, [], ◌∷◌, Map,
  lookup, insert, lookup-insert, Float64, Result, ok, err, ◌≡◌, refl, sym, ap, ◌∙◌, arith,
  Bool-cases, Result-cases, inl, inr,
}
use temporal_auto_scaled_wor.Iface.Types.{
  TaskQueueType, ScalingAlgorithmStatus, ScalingGroupSpec, Groups,
}
use temporal_auto_scaled_wor.Iface.Spec.{effective_task_types_for_group}
use temporal_auto_scaled_wor.Scaling.Registry.{ScalingMetricsSnapshot}
use temporal_auto_scaled_wor.Activities.{Activities, ActivityError, StatusMap, present, status_at}
use temporal_auto_scaled_wor.Activities.Snapshot.{
  pull_scaling_metrics_snapshot, filter_scaling_metrics_snapshot_by_task_types,
}
use temporal_auto_scaled_wor.Activities.PullStats.{
  GroupAnswer, PollRound, PullStatsResponse, insert_present, ask_active, ask_inactive, poll_with,
  poll_group, poll_groups, start, pull_stats, pull_stats_enabled,
}

module _ {P : Type 0} where
  -- The keys of a Go map are distinct.
  abbrev pub HasDistinctKeys : Groups P → Type 0
  HasDistinctKeys [] = Unit {0}
  HasDistinctKeys ((k, g) ∷ m) = (lookup k m ≡ none) × HasDistinctKeys m

module _ {F : Float64} where
  -- The status of an answer, and the old one where an algorithm is missing or fails.
  abbrev pub status_or : ScalingAlgorithmStatus F → GroupAnswer F → ScalingAlgorithmStatus F
  status_or old (err e) = old
  status_or old (ok x) = x.status

  insert_same :
      (key : String) (status : ScalingAlgorithmStatus F) (m : Map (ScalingAlgorithmStatus F))
      → present (lookup key (insert key status m)) ≡ status
  insert_same key status m =
      ap present (lookup-insert key key status m)
      ∙ ap (λ b. present (if b then some status else lookup key m)) ((eq_iff key key).1 refl)

  insert_other :
      (key k : String) (status : ScalingAlgorithmStatus F) (m : Map (ScalingAlgorithmStatus F))
      → str_eq key k ≡ false
      → lookup k (insert key status m) ≡ lookup k m
  insert_other key k status m h =
      lookup-insert key k status m ∙ ap (λ b. if b then some status else lookup k m) h

  insert_present_same :
      (key : String) (status : ScalingAlgorithmStatus F) (m : Map (ScalingAlgorithmStatus F))
      → lookup key m ≡ none
      → present (lookup key (insert_present key status m)) ≡ status
  insert_present_same key none m h = ap present h
  insert_present_same key (some s) m h = insert_same key (some s) m

  insert_present_other :
      (key k : String) (status : ScalingAlgorithmStatus F) (m : Map (ScalingAlgorithmStatus F))
      → str_eq key k ≡ false
      → lookup k (insert_present key status m) ≡ lookup k m
  insert_present_other key k none m h = refl
  insert_present_other key k (some s) m h = insert_other key k (some s) m h

  abbrev updated : Result ActivityError (PullStatsResponse F) → StatusMap F
  updated (err e) = none
  updated (ok x) = x.updated_scaling_status

module _ {F : Float64} {P : Type 0} where
  abbrev pub answer_with :
      Activities F P
      → StatusMap F
      → ScalingMetricsSnapshot F
      → List TaskQueueType
      → String
      → ScalingGroupSpec P
      → GroupAnswer F
  answer_with a statuses s [] key entry = ask_inactive a (status_at statuses key) entry
  answer_with a statuses s (t ∷ ts) key entry =
      ask_active a key (status_at statuses key)
        (filter_scaling_metrics_snapshot_by_task_types (t ∷ ts) s) entry

  -- What the algorithm of a group answers: as of a group that serves nothing here, or to a poll with
  -- the metrics of its task types.
  unfoldable pub group_answer :
      Activities F P
      → Groups P
      → StatusMap F
      → ScalingMetricsSnapshot F
      → String
      → ScalingGroupSpec P
      → GroupAnswer F
  group_answer a groups statuses s key entry =
      answer_with a statuses s (effective_task_types_for_group groups key a.region_id) key entry

  abbrev pub expected :
      Activities F P
      → Groups P
      → StatusMap F
      → ScalingMetricsSnapshot F
      → String
      → Option (ScalingGroupSpec P)
      → ScalingAlgorithmStatus F
  expected a groups statuses s key none = none
  expected a groups statuses s key (some entry) =
      status_or (status_at statuses key) (group_answer a groups statuses s key entry)

  poll_with-same :
      (a : Activities F P) (statuses : StatusMap F) (s : ScalingMetricsSnapshot F)
      (ts : List TaskQueueType) (key : String) (entry : ScalingGroupSpec P) (r : PollRound F)
      → lookup key r.statuses ≡ none
      → present (lookup key (poll_with a statuses s ts (key, entry) r).statuses)
        ≡ status_or (status_at statuses key) (answer_with a statuses s ts key entry)
  poll_with-same a statuses s [] key entry r h =
      elim (Result-cases (ask_inactive a (status_at statuses key) entry)) [
        | inl (x, e) ↦ rw e (insert_present_same key x.status r.statuses h)
        | inr (x, e) ↦ rw e (insert_same key (status_at statuses key) r.statuses)
      ]
  poll_with-same a statuses s (t ∷ ts) key entry r h =
      elim (Result-cases (answer_with a statuses s (t ∷ ts) key entry)) [
        | inl (x, e) ↦ rw e (insert_same key x.status r.statuses)
        | inr (x, e) ↦ rw e (insert_same key (status_at statuses key) r.statuses)
      ]

  poll_with-other :
      (a : Activities F P) (statuses : StatusMap F) (s : ScalingMetricsSnapshot F)
      (ts : List TaskQueueType) (key k : String) (entry : ScalingGroupSpec P) (r : PollRound F)
      → str_eq key k ≡ false
      → lookup k (poll_with a statuses s ts (key, entry) r).statuses ≡ lookup k r.statuses
  poll_with-other a statuses s [] key k entry r h =
      elim (Result-cases (ask_inactive a (status_at statuses key) entry)) [
        | inl (x, e) ↦ rw e (insert_present_other key k x.status r.statuses h)
        | inr (x, e) ↦ rw e (insert_other key k (status_at statuses key) r.statuses h)
      ]
  poll_with-other a statuses s (t ∷ ts) key k entry r h =
      elim (Result-cases (answer_with a statuses s (t ∷ ts) key entry)) [
        | inl (x, e) ↦ rw e (insert_other key k x.status r.statuses h)
        | inr (x, e) ↦ rw e (insert_other key k (status_at statuses key) r.statuses h)
      ]

  poll_groups-other :
      (a : Activities F P) (groups : Groups P) (statuses : StatusMap F)
      (s : ScalingMetricsSnapshot F) (gs : Groups P) (k : String) (r : PollRound F)
      → lookup k gs ≡ none
      → lookup k (poll_groups a groups statuses s gs r).statuses ≡ lookup k r.statuses
  unfolding poll_groups poll_group lookup
  poll_groups-other a groups statuses s [] k r h = refl
  poll_groups-other a groups statuses s ((key, entry) ∷ gs) k r h =
      elim (Bool-cases (str_eq key k)) [
        | inl same ↦ absurd (ground (arith, h, same))
        | inr differ ↦
            poll_groups-other a groups statuses s gs k _ (ground (arith, h, differ))
            ∙ poll_with-other a statuses s (effective_task_types_for_group groups key a.region_id)
                key k entry r differ
      ]

  poll_groups-expected :
      (a : Activities F P) (groups : Groups P) (statuses : StatusMap F)
      (s : ScalingMetricsSnapshot F) (gs : Groups P) (k : String) (r : PollRound F)
      → HasDistinctKeys gs
      → lookup k r.statuses ≡ none
      → present (lookup k (poll_groups a groups statuses s gs r).statuses)
        ≡ expected a groups statuses s k (lookup k gs)
  unfolding poll_groups poll_group lookup group_answer
  poll_groups-expected a groups statuses s [] k r u h = ap present h
  poll_groups-expected a groups statuses s ((key, entry) ∷ gs) k r u h =
      let ts = effective_task_types_for_group groups key a.region_id in
      elim (Bool-cases (str_eq key k)) [
        | inl same ↦
            let e = (eq_iff key k).0 same in
            rw (same, ← e)
              (ap present (poll_groups-other a groups statuses s gs key _ u.0)
                ∙ poll_with-same a statuses s ts key entry r (ap (λ j. lookup j r.statuses) e ∙ h))
        | inr differ ↦ rw differ (
            poll_groups-expected a groups statuses s gs k _ u.1
              (poll_with-other a statuses s ts key k entry r differ ∙ h))
      ]

  -- A poll leaves for each group of the specification the status that its algorithm answers, and the
  -- old status where the algorithm is unknown or fails; for no other key does it leave a status. So
  -- the statuses do not depend on the order in which the groups are visited.
  pub pull_stats-status_at :
      (a : Activities F P) (groups : Groups P) (statuses : StatusMap F)
      (s : ScalingMetricsSnapshot F) (x : PullStatsResponse F) (k : String)
      → HasDistinctKeys groups
      → a.controller_enabled ≡ true
      → pull_scaling_metrics_snapshot a ≡ ok s
      → pull_stats a (some groups) statuses ≡ ok x
      → status_at x.updated_scaling_status k ≡ expected a groups statuses s k (lookup k groups)
  unfolding lookup
  pull_stats-status_at a groups statuses s x k u on pulled' h =
      ap (λ q. status_at (updated q) k) (sym h ∙ pull_stats_enabled a groups statuses s on pulled')
      ∙ poll_groups-expected a groups statuses s groups k (start F) u refl
