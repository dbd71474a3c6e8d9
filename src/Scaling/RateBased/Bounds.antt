-- ===== src/Scaling/RateBased/Bounds.antt =====
-- rate_based.go: the worker counts that the decisions reach.
use temporal_auto_scaled_wor.Prelude.{
  ℤ, pos, ◌≤ℤ◌, ◌<ℤ◌, ◌+ℤ◌, ◌-ℤ◌, -ℤ_parts, int_laws, ltb_ℤ, leb_ℤ, eq_ℤ, max_ℤ, min_ℤ, add32,
  sub32, sub64, wrap32_lem, IsInt32, false, ◌&&◌, some, List, [], ◌∷◌, Map, lookup, insert, Float64,
  FloatLaws, ◌≡◌, ◌⊎◌, inl, inr, refl, subst, arith, Bool-cases, Option-cases,
}
use temporal_auto_scaled_wor.Iface.Types.{
  Value, int64, ScalingAlgorithmConfig, ScalingAlgorithmStatus,
}
use temporal_auto_scaled_wor.Scaling.Registry.{ScalingAction, ScalingMetricsSnapshot}
use temporal_auto_scaled_wor.Scaling.RateBased.{
  worker_count_key, last_up_key, last_down_key, last_no_sync_key, max_int32, min_count, max_count,
  max_step, up_cooldown_ms, down_cooldown_ms, quiet_ms, clean_state, planned_count, aggregate,
  desired_capacity,
}
use temporal_auto_scaled_wor.Scaling.RateBased.Decisions.{
  time_at, resize, current_count, measured_state, scale_up, scale_down, decide,
  process_metrics_poll,
}
use temporal_auto_scaled_wor.Scaling.RateBased.State.{clean_state-IsFiltered, stored_count-bounds}
use temporal_auto_scaled_wor.Scaling.RateBased.Config.{IsBounded}

abbrev pub IsCount : ℤ → Type 0
IsCount n = (pos 0 ≤ℤ n) × (n ≤ℤ max_int32)

IsCount-IsInt32 : (n : ℤ) → IsCount n → IsInt32 n
IsCount-IsInt32 (pos n) h = omega arith
IsCount-IsInt32 (ℤ.negsuc n) h = absurd (omega arith)

sub32_exact : (a b : ℤ) → IsCount a → IsCount b → sub32 a b ≡ a -ℤ b
unfolding sub32 ◌-ℤ◌
sub32_exact a b ha hb = wrap32_lem (a -ℤ b) (ground arith)

pub add32_exact : (a b : ℤ) → IsCount (a +ℤ b) → add32 a b ≡ a +ℤ b
unfolding add32
add32_exact a b h = wrap32_lem (a +ℤ b) (IsCount-IsInt32 (a +ℤ b) h)

-- A step up within the gap and the room.
up_bounds :
    (count desired step high add : ℤ)
    → IsCount count
    → IsCount desired
    → IsCount high
    → pos 0 <ℤ add
    → (add ≤ℤ step) × (add ≤ℤ desired -ℤ count) × (add ≤ℤ high -ℤ count)
    → (count <ℤ add32 count add)
      × (add32 count add ≤ℤ desired)
      × (add32 count add ≤ℤ high)
      × (add32 count add ≤ℤ count +ℤ step)
up_bounds count desired step high add c d h more facts =
    rw (add32_exact count add (omega (int_laws, c, d, facts))) (omega (int_laws, facts))

down_next :
    (low count desired : ℤ)
    → pos 0 ≤ℤ low
    → IsCount count
    → low ≤ℤ desired
    → desired <ℤ count
    → max_ℤ low (sub32 count (pos 1)) ≡ count -ℤ pos 1
down_next low count desired l c a b =
    rw (sub32_exact count (pos 1) c (omega arith)) (ground (arith, -ℤ_parts count (pos 1)))

one_less : (count : ℤ) → count -ℤ pos 1 +ℤ pos 1 ≡ count
one_less count = omega int_laws

below : (count : ℤ) → eq_ℤ (count -ℤ pos 1) count ≡ false
below count = ground (arith, -ℤ_parts count (pos 1))

module _ (F : Float64) where
  -- The desired number of workers is within the configured bounds.
  desired_capacity-bounds :
      (config : ScalingAlgorithmConfig F) (m : Map (Value F)) (backlog : ℤ)
      → min_count F config ≤ℤ max_count F config
      → (min_count F config ≤ℤ desired_capacity F config m backlog)
        × (desired_capacity F config m backlog ≤ℤ max_count F config)
  unfolding desired_capacity
  desired_capacity-bounds config m backlog h = ground arith

  -- The planned count is never negative, whatever was stored.
  pub current_count-IsCount :
      (laws : FloatLaws F) (config : ScalingAlgorithmConfig F) (prior : ScalingAlgorithmStatus F)
      → IsBounded F config
      → (pos 0 ≤ℤ current_count F config prior) × (current_count F config prior ≤ℤ max_int32)
  unfolding planned_count
  current_count-IsCount laws config prior b =
      elim (Option-cases (lookup worker_count_key (clean_state F prior))) [
        | inl absent ↦ rw absent (omega (arith, b))
        | inr (v, present) ↦
            let bounds =
              stored_count-bounds F laws config (clean_state F prior) v present
                (rw present at (clean_state-IsFiltered F prior).count) in
            rw (present, wrap32_lem _ (IsCount-IsInt32 _ bounds)) bounds
      ]

  -- One change of the set, or none.
  abbrev IsHold : ℤ → Map (Value F) → List ScalingAction × Map (Value F) → Type 0
  IsHold count m d = d ≡ ([], m)

  abbrev IsUp :
      ℤ
      → ScalingAlgorithmConfig F
      → ℤ
      → ℤ
      → Map (Value F)
      → List ScalingAction × Map (Value F)
      → Type 0
  IsUp now config count desired m d =
      (n : ℤ) × (d
        ≡ (resize F n ∷ [], insert last_up_key (int64 now) (insert worker_count_key (int64 n) m)))
      × (count <ℤ n)
      × (n ≤ℤ desired)
      × (n ≤ℤ max_count F config)
      × (n ≤ℤ count +ℤ max_step F config)
      × (up_cooldown_ms F config ≤ℤ sub64 now (time_at F m last_up_key))

  abbrev IsDown :
      ℤ
      → ScalingAlgorithmConfig F
      → ℤ
      → ℤ
      → Map (Value F)
      → List ScalingAction × Map (Value F)
      → Type 0
  IsDown now config count desired m d =
      (n : ℤ) × (d
        ≡ (resize F n ∷ [], insert last_down_key (int64 now) (insert worker_count_key (int64 n) m)))
      × (n +ℤ pos 1 ≡ count)
      × (desired ≤ℤ n)
      × (min_count F config ≤ℤ n)
      × (quiet_ms F config ≤ℤ sub64 now (time_at F m last_no_sync_key))
      × (down_cooldown_ms F config ≤ℤ sub64 now (time_at F m last_down_key))

  abbrev pub IsDecision :
      ℤ
      → ScalingAlgorithmConfig F
      → ℤ
      → ℤ
      → Map (Value F)
      → List ScalingAction × Map (Value F)
      → Type 0
  IsDecision now config count desired m d =
      IsHold count m d ⊎ IsUp now config count desired m d ⊎ IsDown now config count desired m d

  -- The workers that a scale-up adds.
  abbrev added : ScalingAlgorithmConfig F → ℤ → ℤ → ℤ
  added config count desired =
      min_ℤ (min_ℤ (max_step F config) (sub32 desired count)) (sub32 (max_count F config) count)

  min3 :
      (step gap room : ℤ)
      → (min_ℤ (min_ℤ step gap) room ≤ℤ step)
        × (min_ℤ (min_ℤ step gap) room ≤ℤ gap)
        × (min_ℤ (min_ℤ step gap) room ≤ℤ room)
  min3 step gap room = ground arith

  added-bounds :
      (config : ScalingAlgorithmConfig F) (count desired : ℤ)
      → IsBounded F config
      → IsCount count
      → IsCount desired
      → (added config count desired ≤ℤ max_step F config)
        × (added config count desired ≤ℤ desired -ℤ count)
        × (added config count desired ≤ℤ max_count F config -ℤ count)
  added-bounds config count desired b c d =
      let facts =
        min3 (max_step F config) (sub32 desired count) (sub32 (max_count F config) count) in
      (
        facts.0,
        subst (λ x. added config count desired ≤ℤ x) (sub32_exact desired count d c) facts.1,
        subst (λ x. added config count desired ≤ℤ x)
            (sub32_exact (max_count F config) count (omega (arith, b)) c) facts.2,
      )

  scale_up-IsDecision :
      (now : ℤ) (config : ScalingAlgorithmConfig F) (count desired : ℤ) (m : Map (Value F))
      → IsBounded F config
      → IsCount count
      → IsCount desired
      → IsDecision now config count desired m (scale_up F now config count desired m)
  unfolding scale_up
  scale_up-IsDecision now config count desired m b c d =
      elim (Bool-cases (leb_ℤ (up_cooldown_ms F config) (sub64 now (time_at F m last_up_key)))) [
        | inl cool ↦ elim (Bool-cases (ltb_ℤ (pos 0) (added config count desired))) [
          | inl more ↦
              rw (cool, more)
                (let facts =
                    up_bounds count desired (max_step F config) (max_count F config)
                      (added config count desired) c d (omega (arith, b)) (ground arith)
                      (added-bounds config count desired b c d) in
                  inr (inl (_, refl, facts.0, facts.1, facts.2, facts.3, (ground arith))))
          | inr none_more ↦ rw (cool, none_more) (inl refl)
        ]
        | inr hot ↦ rw hot (inl refl)
      ]

  scale_down-IsDecision :
      (now : ℤ) (config : ScalingAlgorithmConfig F) (count desired : ℤ) (m : Map (Value F))
      → IsBounded F config
      → IsCount count
      → desired <ℤ count
      → min_count F config ≤ℤ desired
      → IsDecision now config count desired m (scale_down F now config count m)
  unfolding scale_down
  scale_down-IsDecision now config count desired m b c d low =
      let quiet = leb_ℤ (quiet_ms F config) (sub64 now (time_at F m last_no_sync_key)) in
      let cool = leb_ℤ (down_cooldown_ms F config) (sub64 now (time_at F m last_down_key)) in
      let next = down_next (min_count F config) count desired (b.min_nonneg) c low d in
      elim (Bool-cases (quiet && cool)) [
        | inl go ↦
            rw (go, next, below count)
              (inr (
                inr (
                  count -ℤ pos 1,
                  refl,
                  one_less count,
                  omega (int_laws, d),
                  omega (int_laws, d, low),
                  ground arith,
                  ground arith,
                )))
        | inr wait ↦ rw wait (inl refl)
      ]

  decide-IsDecision :
      (now : ℤ) (config : ScalingAlgorithmConfig F) (count desired : ℤ) (m : Map (Value F))
      → IsBounded F config
      → IsCount count
      → min_count F config ≤ℤ desired
      → desired ≤ℤ max_count F config
      → IsDecision now config count desired m (decide F now config count desired m)
  unfolding decide
  decide-IsDecision now config count desired m b c low high =
      elim (Bool-cases (ltb_ℤ count desired)) [
        | inl more ↦
            rw more
              (scale_up-IsDecision now config count desired m b c (omega (arith, b, low, high)))
        | inr enough ↦ elim (Bool-cases (ltb_ℤ desired count)) [
          | inl less ↦
              rw (enough, less)
                (scale_down-IsDecision now config count desired m b c (ground arith) low)
          | inr same ↦ rw (enough, same) (inl refl)
        ]
      ]

  -- What a poll may do: hold; or grow the set towards the desired size, by at most the step, not
  -- above the maximum and after the scale-up cooldown; or shrink it by one, not below the minimum
  -- and after the quiet time and the scale-down cooldown. The state's count and time are written
  -- with the request. The configuration has passed its validation.
  pub process_metrics_poll-IsDecision :
      (laws : FloatLaws F) (now : ℤ) (config : ScalingAlgorithmConfig F)
      (prior : ScalingAlgorithmStatus F) (snapshot : ScalingMetricsSnapshot F)
      → IsBounded F config
      → let a = aggregate F (some snapshot) in
        let m = measured_state F config prior a in
        (m' : Map (Value F)) × ((process_metrics_poll F now config prior snapshot).status ≡ some m')
        × IsDecision now config
            (current_count F config prior)
            (desired_capacity F config m a.backlog)
            m
            ((process_metrics_poll F now config prior snapshot).actions, m')
  unfolding process_metrics_poll
  process_metrics_poll-IsDecision laws now config prior snapshot b =
      let a = aggregate F (some snapshot) in
      let m = measured_state F config prior a in
      let bounds = desired_capacity-bounds config m a.backlog b.min-le-max in
      (
        (decide F now config (current_count F config prior) (desired_capacity F config m a.backlog)
            m).1,
        refl,
        decide-IsDecision now config (current_count F config prior)
            (desired_capacity F config m a.backlog) m b (current_count-IsCount laws config prior b)
            bounds.0 bounds.1,
      )
