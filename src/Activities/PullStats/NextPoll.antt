-- ===== src/Activities/PullStats/NextPoll.antt =====
-- PullStats: when the next poll is due.
use temporal_auto_scaled_wor.Prelude.{
  ℕ, ℤ, pos, negsuc, ◌≤◌, ◌≤ℤ◌, max_ℤ, min_ℤ, true, String, Option, none, some, List, [], ◌∷◌, ◌++◌,
  Float64, Result, ok, err, ◌≡◌, refl, sym, ap, ◌∙◌, arith, eq_of_parts, Result-cases, inl, inr,
}
use temporal_auto_scaled_wor.Iface.Types.{TaskQueueType, ScalingGroupSpec, Groups}
use temporal_auto_scaled_wor.Iface.Spec.{effective_task_types_for_group}
use temporal_auto_scaled_wor.Scaling.Registry.{ScalingMetricsSnapshot}
use temporal_auto_scaled_wor.Activities.{Activities, ActivityError, StatusMap, status_at}
use temporal_auto_scaled_wor.Activities.Snapshot.{
  pull_scaling_metrics_snapshot, filter_scaling_metrics_snapshot_by_task_types,
}
use temporal_auto_scaled_wor.Activities.PullStats.{
  min_poll_interval, max_poll_interval, seconds, sooner, GroupAnswer, PollRound, PullStatsResponse,
  ask_active, ask_inactive, poll_with, poll_group, poll_groups, start, pull_stats,
  pull_stats_enabled,
}

-- The least of a number and those of a list.
abbrev pub least : ℤ → List ℤ → ℤ
least n [] = n
least n (p ∷ ps) = least (min_ℤ n p) ps

clamp_twice : (m x q : ℤ) → max_ℤ m (min_ℤ (max_ℤ m x) q) ≡ max_ℤ m (min_ℤ x q)
clamp_twice m x q = ground arith

clamp_least : (m x : ℤ) (ps : List ℤ) → max_ℤ m (least (max_ℤ m x) ps) ≡ max_ℤ m (least x ps)
clamp_least m x [] = ground arith
clamp_least m x (q ∷ ps) =
    sym (clamp_least m (min_ℤ (max_ℤ m x) q) ps)
    ∙ ap (λ y. max_ℤ m (least y ps)) (clamp_twice m x q)
    ∙ clamp_least m (min_ℤ x q) ps

abbrev asked_optional : Option ℤ → List ℤ
asked_optional none = []
asked_optional (some p) = p ∷ []

abbrev IsWithin : ℤ → Type 0
IsWithin n = (min_poll_interval ≤ℤ n) × (n ≤ℤ max_poll_interval)

sooner-IsWithin : (n : ℤ) (o : Option ℤ) → IsWithin n → IsWithin (sooner n o)
sooner-IsWithin n none h = h
sooner-IsWithin n (some p) h = ground (arith, h)

sooner-least :
    (n : ℤ) (o : Option ℤ) (ps : List ℤ)
    → max_ℤ min_poll_interval (least (sooner n o) ps)
      ≡ max_ℤ min_poll_interval (least n (asked_optional o ++ ps))
sooner-least n none ps = refl
sooner-least n (some p) ps = clamp_least min_poll_interval (min_ℤ n p) ps

max_below : (m n : ℤ) → m ≤ℤ n → n ≡ max_ℤ m n
max_below m n h = ground (arith, eq_of_parts m n)

seconds_bounds : (n : ℤ) → IsWithin n → (30 ≤ seconds n) × (seconds n ≤ 300)
seconds_bounds (pos n) h = omega (arith, h.0, h.1)
seconds_bounds (negsuc n) h = absurd (omega (arith, h.0))

module _ {F : Float64} where
  abbrev asked_poll : GroupAnswer F → List ℤ
  asked_poll (err e) = []
  asked_poll (ok x) = asked_optional x.next_poll

  abbrev answer_seconds : Result ActivityError (PullStatsResponse F) → ℕ
  answer_seconds (err e) = 0
  answer_seconds (ok x) = x.next_poll_seconds

module _ {F : Float64} {P : Type 0} where
  abbrev asked_with :
      Activities F P
      → StatusMap F
      → ScalingMetricsSnapshot F
      → List TaskQueueType
      → String × ScalingGroupSpec P
      → List ℤ
  asked_with a statuses s [] entry = []
  asked_with a statuses s (t ∷ ts) (key, entry) = asked_poll (
      ask_active a key (status_at statuses key)
        (filter_scaling_metrics_snapshot_by_task_types (t ∷ ts) s) entry)

  -- The polls that the algorithms of the groups that serve here ask for.
  unfoldable pub asked :
      Activities F P → Groups P → StatusMap F → ScalingMetricsSnapshot F → Groups P → List ℤ
  asked a groups statuses s [] = []
  asked a groups statuses s (entry ∷ rest) =
      asked_with a statuses s (effective_task_types_for_group groups entry.0 a.region_id) entry
      ++ asked a groups statuses s rest

  poll_with-IsWithin :
      (a : Activities F P) (statuses : StatusMap F) (s : ScalingMetricsSnapshot F)
      (ts : List TaskQueueType) (key : String) (entry : ScalingGroupSpec P) (r : PollRound F)
      → IsWithin r.next_poll
      → IsWithin (poll_with a statuses s ts (key, entry) r).next_poll
  poll_with-IsWithin a statuses s [] key entry r h =
      elim (Result-cases (ask_inactive a (status_at statuses key) entry)) [
        | inl (x, e) ↦ rw e h
        | inr (x, e) ↦ rw e h
      ]
  poll_with-IsWithin a statuses s (t ∷ ts) key entry r h =
      elim (Result-cases (
        ask_active a key (status_at statuses key)
          (filter_scaling_metrics_snapshot_by_task_types (t ∷ ts) s) entry)) [
            | inl (x, e) ↦ rw e (sooner-IsWithin r.next_poll x.next_poll h)
            | inr (x, e) ↦ rw e h
          ]

  poll_groups-IsWithin :
      (a : Activities F P) (groups : Groups P) (statuses : StatusMap F)
      (s : ScalingMetricsSnapshot F) (gs : Groups P) (r : PollRound F)
      → IsWithin r.next_poll
      → IsWithin (poll_groups a groups statuses s gs r).next_poll
  unfolding poll_groups poll_group
  poll_groups-IsWithin a groups statuses s [] r h = h
  poll_groups-IsWithin a groups statuses s ((key, entry) ∷ gs) r h =
      poll_groups-IsWithin a groups statuses s gs _ (
        poll_with-IsWithin a statuses s (effective_task_types_for_group groups key a.region_id) key
          entry r h)

  poll_with-least :
      (a : Activities F P) (statuses : StatusMap F) (s : ScalingMetricsSnapshot F)
      (ts : List TaskQueueType) (key : String) (entry : ScalingGroupSpec P) (r : PollRound F)
      (ps : List ℤ)
      → max_ℤ min_poll_interval (least (poll_with a statuses s ts (key, entry) r).next_poll ps)
        ≡ max_ℤ min_poll_interval
            (least r.next_poll (asked_with a statuses s ts (key, entry) ++ ps))
  poll_with-least a statuses s [] key entry r ps =
      elim (Result-cases (ask_inactive a (status_at statuses key) entry)) [
        | inl (x, e) ↦ rw e refl
        | inr (x, e) ↦ rw e refl
      ]
  poll_with-least a statuses s (t ∷ ts) key entry r ps =
      elim (Result-cases (
        ask_active a key (status_at statuses key)
          (filter_scaling_metrics_snapshot_by_task_types (t ∷ ts) s) entry)) [
            | inl (x, e) ↦ rw e (sooner-least r.next_poll x.next_poll ps)
            | inr (x, e) ↦ rw e refl
          ]

  poll_groups-least :
      (a : Activities F P) (groups : Groups P) (statuses : StatusMap F)
      (s : ScalingMetricsSnapshot F) (gs : Groups P) (r : PollRound F)
      → max_ℤ min_poll_interval (poll_groups a groups statuses s gs r).next_poll
        ≡ max_ℤ min_poll_interval (least r.next_poll (asked a groups statuses s gs))
  unfolding poll_groups poll_group asked
  poll_groups-least a groups statuses s [] r = refl
  poll_groups-least a groups statuses s ((key, entry) ∷ gs) r =
      poll_groups-least a groups statuses s gs _
      ∙ poll_with-least a statuses s (effective_task_types_for_group groups key a.region_id) key
          entry r (asked a groups statuses s gs)

  -- The next poll of an enabled controller is due after 30 to 300 seconds. It is the soonest that an
  -- algorithm of a group serving here asks for, but never sooner than 30 seconds, and 300 seconds if
  -- none asks for less.
  pub pull_stats-next_poll :
      (a : Activities F P) (groups : Groups P) (statuses : StatusMap F)
      (s : ScalingMetricsSnapshot F) (x : PullStatsResponse F)
      → a.controller_enabled ≡ true
      → pull_scaling_metrics_snapshot a ≡ ok s
      → pull_stats a (some groups) statuses ≡ ok x
      → (30 ≤ x.next_poll_seconds)
        × (x.next_poll_seconds ≤ 300)
        × (x.next_poll_seconds
            ≡ seconds (
                max_ℤ min_poll_interval
                  (least max_poll_interval (asked a groups statuses s groups))))
  pull_stats-next_poll a groups statuses s x on pulled' h =
      let same = ap answer_seconds (sym (pull_stats_enabled a groups statuses s on pulled') ∙ h) in
      let r = poll_groups a groups statuses s groups (start F) in
      let within =
        poll_groups-IsWithin a groups statuses s groups (start F) (omega arith, omega arith) in
      let bounds = seconds_bounds r.next_poll within in
      let next = ap seconds (
        max_below min_poll_interval r.next_poll within.0
        ∙ poll_groups-least a groups statuses s groups (start F)) in
      (omega (arith, same, bounds.0), omega (arith, same, bounds.1), sym same ∙ next)
