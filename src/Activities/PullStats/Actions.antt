-- ===== src/Activities/PullStats/Actions.antt =====
-- PullStats: the actions that it answers.
use mathlib.Core.List.{Memᴰ}
use temporal_auto_scaled_wor.Prelude.{
  true, false, not, String, some, List, [], ◌∷◌, map, keep_if, All, All-append, Float64, Result, ok,
  err, ◌≡◌, refl, sym, ap, subst, ◌∙◌, Bool-cases, Result-cases, ◌⊎◌, inl, inr,
}
use temporal_auto_scaled_wor.Iface.Types.{TaskQueueType, ScalingGroupSpec, Groups}
use temporal_auto_scaled_wor.Iface.Spec.{effective_task_types_for_group}
use temporal_auto_scaled_wor.Scaling.Registry.{ScalingAction, ScalingMetricsSnapshot}
use temporal_auto_scaled_wor.Activities.{Activities, ActivityError, StatusMap, status_at}
use temporal_auto_scaled_wor.Activities.Snapshot.{
  pull_scaling_metrics_snapshot, filter_scaling_metrics_snapshot_by_task_types,
}
use temporal_auto_scaled_wor.Activities.PullStats.{
  PollRound, PullStatsResponse, with_key, is_deferred, ask_active, ask_inactive, poll_with,
  poll_group, poll_groups, start, pull_stats, pull_stats_enabled,
}

module _ {P : Type 0} where
  -- An action for a group of the specification, deferred only if the group serves nothing here.
  abbrev pub IsAllowed : Groups P → String → ScalingAction → Type 0
  IsAllowed groups region_id x =
      (g : ScalingGroupSpec P) × Memᴰ (x.scaling_group_key, g) groups
      × ((is_deferred x.action ≡ false)
          ⊎ (effective_task_types_for_group groups x.scaling_group_key region_id ≡ []))

  active_actions :
      (groups : Groups P) (region_id key : String) (g : ScalingGroupSpec P)
      (xs : List ScalingAction)
      → Memᴰ (key, g) groups
      → All
          (IsAllowed groups region_id)
          (map (with_key key) (keep_if (λ y. not (is_deferred y.action)) xs))
  active_actions groups region_id key g [] i = tt
  active_actions groups region_id key g (x ∷ xs) i = elim (Bool-cases (is_deferred x.action)) [
    | inl deferred ↦ rw deferred (active_actions groups region_id key g xs i)
    | inr plain ↦ rw plain ((g, i, inl plain), active_actions groups region_id key g xs i)
  ]

  inactive_actions :
      (groups : Groups P) (region_id key : String) (g : ScalingGroupSpec P)
      (xs : List ScalingAction)
      → Memᴰ (key, g) groups
      → effective_task_types_for_group groups key region_id ≡ []
      → All (IsAllowed groups region_id) (map (with_key key) xs)
  inactive_actions groups region_id key g [] i e = tt
  inactive_actions groups region_id key g (x ∷ xs) i e =
      ((g, i, inr e), inactive_actions groups region_id key g xs i e)

module _ {F : Float64} where
  abbrev actions_of : Result ActivityError (PullStatsResponse F) → List ScalingAction
  actions_of (err e) = []
  actions_of (ok x) = x.actions

module _ {F : Float64} {P : Type 0} where
  poll_with-actions :
      (a : Activities F P) (groups : Groups P) (statuses : StatusMap F)
      (s : ScalingMetricsSnapshot F) (ts : List TaskQueueType) (key : String)
      (g : ScalingGroupSpec P) (r : PollRound F)
      → effective_task_types_for_group groups key a.region_id ≡ ts
      → Memᴰ (key, g) groups
      → All (IsAllowed groups a.region_id) r.actions
      → All (IsAllowed groups a.region_id) (poll_with a statuses s ts (key, g) r).actions
  poll_with-actions a groups statuses s [] key g r e i h =
      elim (Result-cases (ask_inactive a (status_at statuses key) g)) [
        | inl (x, q) ↦ rw q (
            All-append (IsAllowed groups a.region_id) r.actions (map (with_key key) x.actions) h
              (inactive_actions groups a.region_id key g x.actions i e))
        | inr (x, q) ↦ rw q h
      ]
  poll_with-actions a groups statuses s (t ∷ ts) key g r e i h =
      elim (Result-cases (
        ask_active a key (status_at statuses key)
          (filter_scaling_metrics_snapshot_by_task_types (t ∷ ts) s) g)) [
            | inl (x, q) ↦ rw q (
                All-append (IsAllowed groups a.region_id) r.actions _ h
                  (active_actions groups a.region_id key g x.actions i))
            | inr (x, q) ↦ rw q h
          ]

  poll_groups-actions :
      (a : Activities F P) (groups : Groups P) (statuses : StatusMap F)
      (s : ScalingMetricsSnapshot F) (gs : Groups P) (r : PollRound F)
      → ((e : String × ScalingGroupSpec P) → Memᴰ e gs → Memᴰ e groups)
      → All (IsAllowed groups a.region_id) r.actions
      → All (IsAllowed groups a.region_id) (poll_groups a groups statuses s gs r).actions
  unfolding poll_groups poll_group
  poll_groups-actions a groups statuses s [] r sub h = h
  poll_groups-actions a groups statuses s ((key, g) ∷ gs) r sub h =
      poll_groups-actions a groups statuses s gs _ (λ e i. sub e (Memᴰ.tail i))
        (poll_with-actions a groups statuses s _ key g r refl (sub (key, g) (Memᴰ.head refl)) h)

  -- Each action that a poll answers has the key of a group of the specification, and none of a group
  -- that serves some type here is a deferred decision.
  pub pull_stats-IsAllowed :
      (a : Activities F P) (groups : Groups P) (statuses : StatusMap F)
      (s : ScalingMetricsSnapshot F) (x : PullStatsResponse F)
      → a.controller_enabled ≡ true
      → pull_scaling_metrics_snapshot a ≡ ok s
      → pull_stats a (some groups) statuses ≡ ok x
      → All (IsAllowed groups a.region_id) x.actions
  pull_stats-IsAllowed a groups statuses s x on pulled' h =
      subst (All (IsAllowed groups a.region_id))
        (ap actions_of (sym (pull_stats_enabled a groups statuses s on pulled') ∙ h))
        (poll_groups-actions a groups statuses s groups (start F) (λ e i. i) tt)
