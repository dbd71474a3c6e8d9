-- ===== src/Scaling/RateBased/State.antt =====
-- rate_based.go: what the cleaned state holds, and which entries the estimates touch.
use temporal_auto_scaled_wor.Prelude.{
  ℤ, pos, negsuc, ◌≤ℤ◌, wrap32_lem, if◌then◌else◌, Bool, true, false, String, str_eq, eq_iff,
  Option, none, some, Map, lookup, insert, keep_keys, lookup-insert, lookup-delete,
  lookup-keep_keys, Float64, FloatLaws, ◌≡◌, refl, ◌∙◌, arith, Bool-cases, inl, inr,
}
use temporal_auto_scaled_wor.Iface.Types.{
  Value, int, int64, float64, ScalingAlgorithmConfig, ScalingAlgorithmStatus,
}
use temporal_auto_scaled_wor.Iface.MapAccess.{get_int64_from_map, int64_or}
use temporal_auto_scaled_wor.Iface.Spec.{contains}
use temporal_auto_scaled_wor.Scaling.RateBased.{
  worker_count_key, arrival_rate_key, dispatch_rate_key, capacity_key, last_up_key, last_down_key,
  last_no_sync_key, valid_state_keys, max_int32, is_finite_float64, is_not_non_positive_float64,
  is_valid_non_negative_int32, is_valid_non_negative_int64, passes, drop_unless, clean_state,
  planned_count, AggregateMetrics, update_ewma, snap_idle_ewma_to_zero, update_capacity, entries,
  smooth, ewma_alpha, estimated_capacity, zero_float,
}
use temporal_auto_scaled_wor.Scaling.RateBased.Decisions.{
  counted_state, current_count, measured_state,
}

module _ (F : Float64) where
  drop_unless-other :
      (p : Value F → Bool) (j k : String) (m : Map (Value F))
      → str_eq j k ≡ false
      → lookup k (drop_unless F p j m) ≡ lookup k m
  unfolding drop_unless
  drop_unless-other p j k m h = ground (arith, lookup-delete j k m)

  -- What is left under a key passes the test.
  drop_unless-passes :
      (p : Value F → Bool) (k : String) (m : Map (Value F))
      → passes F p (lookup k (drop_unless F p k m)) ≡ true
  unfolding drop_unless
  drop_unless-passes p k m = elim (Bool-cases (passes F p (lookup k m))) [
    | inl e ↦ rw e e
    | inr e ↦ rw (e, lookup-delete k k m, (eq_iff k k).1 refl)
  ]

  -- A later cleaning of another key.
  passes-other :
      (p q : Value F → Bool) (j k : String) (m : Map (Value F))
      → str_eq j k ≡ false
      → passes F p (lookup k m) ≡ true
      → passes F p (lookup k (drop_unless F q j m)) ≡ true
  passes-other p q j k m h e = rw (drop_unless-other q j k m h) e

  pub clean_state-worker_count :
      (prior : ScalingAlgorithmStatus F)
      → passes F (is_valid_non_negative_int32 F) (lookup worker_count_key (clean_state F prior))
        ≡ true
  unfolding clean_state
  clean_state-worker_count prior = passes-other _ _ last_no_sync_key worker_count_key _ refl (
      passes-other _ _ last_down_key worker_count_key _ refl (
        passes-other _ _ last_up_key worker_count_key _ refl
          (drop_unless-passes (is_valid_non_negative_int32 F) worker_count_key _)))

  drop_unless-none :
      (p : Value F → Bool) (j k : String) (m : Map (Value F))
      → lookup k m ≡ none
      → lookup k (drop_unless F p j m) ≡ none
  unfolding drop_unless
  drop_unless-none p j k m h = ground (arith, lookup-delete j k m)

  -- What is left passes the tests.
  pub record IsFiltered (m : Map (Value F)) : Type 0 where
    pub known : (k : String) → contains valid_state_keys k ≡ false → lookup k m ≡ none
    pub count : passes F (is_valid_non_negative_int32 F) (lookup worker_count_key m) ≡ true
    pub arrival : passes F (is_finite_float64 F) (lookup arrival_rate_key m) ≡ true
    pub dispatch : passes F (is_finite_float64 F) (lookup dispatch_rate_key m) ≡ true
    pub capacity : passes F (is_finite_float64 F) (lookup capacity_key m) ≡ true
    pub positive : passes F (is_not_non_positive_float64 F) (lookup capacity_key m) ≡ true
    pub up : passes F (is_valid_non_negative_int64 F) (lookup last_up_key m) ≡ true
    pub down : passes F (is_valid_non_negative_int64 F) (lookup last_down_key m) ≡ true
    pub no_sync : passes F (is_valid_non_negative_int64 F) (lookup last_no_sync_key m) ≡ true

  passes-tighter :
      (p q : Value F → Bool) (k : String) (m : Map (Value F))
      → passes F p (lookup k m) ≡ true
      → passes F p (lookup k (drop_unless F q k m)) ≡ true
  unfolding drop_unless
  passes-tighter p q k m h = elim (Bool-cases (passes F q (lookup k m))) [
    | inl e ↦ rw e h
    | inr e ↦ rw (e, lookup-delete k k m, (eq_iff k k).1 refl)
  ]

  -- The cleaned state has passed the tests.
  pub clean_state-IsFiltered : (prior : ScalingAlgorithmStatus F) → IsFiltered (clean_state F prior)
  unfolding clean_state
  clean_state-IsFiltered prior = record {
    known = λ k h. drop_unless-none _ last_no_sync_key k _ (
        drop_unless-none _ last_down_key k _ (
          drop_unless-none _ last_up_key k _ (
            drop_unless-none _ worker_count_key k _ (
              drop_unless-none _ capacity_key k _ (
                drop_unless-none _ capacity_key k _ (
                  drop_unless-none _ dispatch_rate_key k _ (
                    drop_unless-none _ arrival_rate_key k _ (
                      lookup-keep_keys (contains valid_state_keys) k (entries F prior)
                      ∙ rw h))))))));
    count = clean_state-worker_count prior;
    arrival = passes-other _ _ last_no_sync_key arrival_rate_key _ refl (
        passes-other _ _ last_down_key arrival_rate_key _ refl (
          passes-other _ _ last_up_key arrival_rate_key _ refl (
            passes-other _ _ worker_count_key arrival_rate_key _ refl (
              passes-other _ _ capacity_key arrival_rate_key _ refl (
                passes-other _ _ capacity_key arrival_rate_key _ refl (
                  passes-other _ _ dispatch_rate_key arrival_rate_key _ refl
                    (drop_unless-passes _ arrival_rate_key _)))))));
    dispatch = passes-other _ _ last_no_sync_key dispatch_rate_key _ refl (
        passes-other _ _ last_down_key dispatch_rate_key _ refl (
          passes-other _ _ last_up_key dispatch_rate_key _ refl (
            passes-other _ _ worker_count_key dispatch_rate_key _ refl (
              passes-other _ _ capacity_key dispatch_rate_key _ refl (
                passes-other _ _ capacity_key dispatch_rate_key _ refl
                  (drop_unless-passes _ dispatch_rate_key _))))));
    capacity = passes-other _ _ last_no_sync_key capacity_key _ refl (
        passes-other _ _ last_down_key capacity_key _ refl (
          passes-other _ _ last_up_key capacity_key _ refl (
            passes-other _ _ worker_count_key capacity_key _ refl
              (passes-tighter _ _ capacity_key _ (drop_unless-passes _ capacity_key _)))));
    positive = passes-other _ _ last_no_sync_key capacity_key _ refl (
        passes-other _ _ last_down_key capacity_key _ refl (
          passes-other _ _ last_up_key capacity_key _ refl (
            passes-other _ _ worker_count_key capacity_key _ refl
              (drop_unless-passes _ capacity_key _))));
    up =
        passes-other _ _ last_no_sync_key last_up_key _ refl
          (passes-other _ _ last_down_key last_up_key _ refl (drop_unless-passes _ last_up_key _));
    down =
        passes-other _ _ last_no_sync_key last_down_key _ refl
          (drop_unless-passes _ last_down_key _);
    no_sync = drop_unless-passes _ last_no_sync_key _;
  }

  -- A float64 that is a number and not infinite.
  abbrev pub IsFinite : F.Carrier → Type 0
  IsFinite x = (F.is_nan x ≡ false) × (F.is_inf x ≡ false)

  -- A stored rate is a finite float64.
  abbrev pub IsRate : Option (Value F) → Type 0
  IsRate none = Unit {0}
  IsRate (some (float64 x)) = IsFinite x
  IsRate (some v) = ⊥

  -- A stored capacity is also above 0.
  abbrev pub IsCapacity : Option (Value F) → Type 0
  IsCapacity none = Unit {0}
  IsCapacity (some (float64 x)) = IsFinite x × (F.le x (zero_float F) ≡ false)
  IsCapacity (some v) = ⊥

  -- A stored count or time is a whole number, from 0 on and below a limit.
  abbrev pub IsWhole : F.Carrier → Type 0
  IsWhole x = IsFinite x × (F.le (zero_float F) x ≡ true) × (F.eq x (F.trunc x) ≡ true)

  abbrev pub IsStoredCount : Option (Value F) → Type 0
  IsStoredCount none = Unit {0}
  IsStoredCount (some (int n)) = (pos 0 ≤ℤ n) × (n ≤ℤ max_int32)
  IsStoredCount (some (int64 n)) = (pos 0 ≤ℤ n) × (n ≤ℤ max_int32)
  IsStoredCount (some (float64 x)) = IsWhole x × (F.le x (F.of_int max_int32) ≡ true)
  IsStoredCount (some v) = ⊥

  abbrev pub IsStoredTime : Option (Value F) → Type 0
  IsStoredTime none = Unit {0}
  IsStoredTime (some (int n)) = pos 0 ≤ℤ n
  IsStoredTime (some (int64 n)) = pos 0 ≤ℤ n
  IsStoredTime (some (float64 x)) = IsWhole x × (F.lt x (F.of_int (pos 9223372036854775807)) ≡ true)
  IsStoredTime (some v) = ⊥

  -- What later code relies on of the cleaned state.
  pub record IsClean (m : Map (Value F)) : Type 0 where
    pub known : (k : String) → contains valid_state_keys k ≡ false → lookup k m ≡ none
    pub count : IsStoredCount (lookup worker_count_key m)
    pub arrival : IsRate (lookup arrival_rate_key m)
    pub dispatch : IsRate (lookup dispatch_rate_key m)
    pub capacity : IsCapacity (lookup capacity_key m)
    pub up : IsStoredTime (lookup last_up_key m)
    pub down : IsStoredTime (lookup last_down_key m)
    pub no_sync : IsStoredTime (lookup last_no_sync_key m)

  passed-IsRate : (o : Option (Value F)) → passes F (is_finite_float64 F) o ≡ true → IsRate o
  passed-IsRate none h = tt
  passed-IsRate (some (float64 x)) h = (ground arith, ground arith)
  passed-IsRate (some v) h = cc

  passed-IsCapacity :
      (o : Option (Value F))
      → passes F (is_finite_float64 F) o ≡ true
      → passes F (is_not_non_positive_float64 F) o ≡ true
      → IsCapacity o
  passed-IsCapacity none h p = tt
  passed-IsCapacity (some (float64 x)) h p = ((ground arith, ground arith), ground arith)
  passed-IsCapacity (some v) h p = cc

  passed-IsStoredCount :
      (o : Option (Value F)) → passes F (is_valid_non_negative_int32 F) o ≡ true → IsStoredCount o
  passed-IsStoredCount none h = tt
  passed-IsStoredCount (some (int n)) h = (ground arith, ground arith)
  passed-IsStoredCount (some (int64 n)) h = (ground arith, ground arith)
  passed-IsStoredCount (some (float64 x)) h =
      (((ground arith, ground arith), ground arith, ground arith), ground arith)
  passed-IsStoredCount (some v) h = cc

  passed-IsStoredTime :
      (o : Option (Value F)) → passes F (is_valid_non_negative_int64 F) o ≡ true → IsStoredTime o
  passed-IsStoredTime none h = tt
  passed-IsStoredTime (some (int n)) h = ground arith
  passed-IsStoredTime (some (int64 n)) h = ground arith
  passed-IsStoredTime (some (float64 x)) h =
      (((ground arith, ground arith), ground arith, ground arith), ground arith)
  passed-IsStoredTime (some v) h = cc

  -- Whatever was stored, the cleaned state has only known keys; its rates are finite float64 values,
  -- its capacity is also above 0, its worker count is an int32 that is not negative, and its times
  -- are not negative, both as integers or as whole float64 values in the range.
  pub clean_state-IsClean : (prior : ScalingAlgorithmStatus F) → IsClean (clean_state F prior)
  clean_state-IsClean prior =
      let f = clean_state-IsFiltered prior in
      record {
        known = f.known;
        count = passed-IsStoredCount _ f.count;
        arrival = passed-IsRate _ f.arrival;
        dispatch = passed-IsRate _ f.dispatch;
        capacity = passed-IsCapacity _ f.capacity f.positive;
        up = passed-IsStoredTime _ f.up;
        down = passed-IsStoredTime _ f.down;
        no_sync = passed-IsStoredTime _ f.no_sync;
      }

  -- A key that the estimates do not write.
  abbrev pub IsKept : String → Type 0
  IsKept k =
      (str_eq arrival_rate_key k ≡ false)
      × (str_eq dispatch_rate_key k ≡ false)
      × (str_eq capacity_key k ≡ false)

  update_ewma-kept :
      (k : String) (config : ScalingAlgorithmConfig F) (m : Map (Value F)) (a : AggregateMetrics F)
      → IsKept k
      → lookup k (update_ewma F config m a) ≡ lookup k m
  unfolding update_ewma
  update_ewma-kept k config m a h = simp (lookup-insert, h.0, h.1)

  update_capacity-kept :
      (k : String) (config : ScalingAlgorithmConfig F) (m : Map (Value F)) (n : ℤ) (x : F.Carrier)
      → IsKept k
      → lookup k (update_capacity F config m n x) ≡ lookup k m
  unfolding update_capacity
  update_capacity-kept k config m n x h =
      ground (arith, lookup-insert capacity_key k (float64 (update_value config m n x)) m)
    where
      update_value : ScalingAlgorithmConfig F → Map (Value F) → ℤ → F.Carrier → F.Carrier
      update_value config m n x =
          smooth F (ewma_alpha F config) (F.div x (F.of_int n)) (estimated_capacity F config m)

  snap_idle-kept :
      (k : String) (m : Map (Value F)) (a : AggregateMetrics F)
      → IsKept k
      → lookup k (snap_idle_ewma_to_zero F m a) ≡ lookup k m
  unfolding snap_idle_ewma_to_zero
  snap_idle-kept k m a h = ground (
    arith,
    lookup-insert dispatch_rate_key k (float64 (zero_float F))
        (insert arrival_rate_key (float64 (zero_float F)) m),
    lookup-insert arrival_rate_key k (float64 (zero_float F)) m,
  )

  averaged-kept :
      (k : String) (b : Bool) (config : ScalingAlgorithmConfig F) (m : Map (Value F))
      (a : AggregateMetrics F)
      → IsKept k
      → lookup k (if b then update_ewma F config m a else m) ≡ lookup k m
  averaged-kept k true config m a h = update_ewma-kept k config m a h
  averaged-kept k false config m a h = refl

  sampled-kept :
      (k : String) (b : Bool) (config : ScalingAlgorithmConfig F) (m : Map (Value F)) (n : ℤ)
      (x : F.Carrier)
      → IsKept k
      → lookup k (if b then update_capacity F config m n x else m) ≡ lookup k m
  sampled-kept k true config m n x h = update_capacity-kept k config m n x h
  sampled-kept k false config m n x h = refl

  -- The estimates of a poll leave the worker count and the times alone.
  pub measured_state-kept :
      (k : String) (config : ScalingAlgorithmConfig F) (prior : ScalingAlgorithmStatus F)
      (a : AggregateMetrics F)
      → IsKept k
      → lookup k (measured_state F config prior a) ≡ lookup k (counted_state F config prior)
  unfolding measured_state
  measured_state-kept k config prior a h =
      sampled-kept k _ config _ _ _ h
      ∙ snap_idle-kept k _ a h
      ∙ averaged-kept k a.has_data config (counted_state F config prior) a h

  -- The stored count, as the code reads it.
  pub stored_count-bounds :
      (laws : FloatLaws F) (config : ScalingAlgorithmConfig F) (m : Map (Value F)) (v : Value F)
      → lookup worker_count_key m ≡ some v
      → is_valid_non_negative_int32 F v ≡ true
      → (pos 0 ≤ℤ get_int64_from_map F (some m) worker_count_key (pos 0))
        × (get_int64_from_map F (some m) worker_count_key (pos 0) ≤ℤ max_int32)
  unfolding get_int64_from_map
  stored_count-bounds laws config m (int n) e h = rw e (ground arith)
  stored_count-bounds laws config m (int64 n) e h = rw e (ground arith)
  stored_count-bounds laws config m (float64 x) e h = rw e (
      laws.to_int64_within (pos 0) max_int32 x (omega arith) (omega arith) (omega arith)
        (omega arith) (ground arith) (ground arith))
  stored_count-bounds laws config m v e h = cc

  drop_unless-keeps :
      (p : Value F → Bool) (k : String) (m : Map (Value F))
      → passes F p (lookup k m) ≡ true
      → lookup k (drop_unless F p k m) ≡ lookup k m
  unfolding drop_unless
  drop_unless-keeps p k m h = rw h

  -- Cleaning keeps a count that is valid.
  clean_state-keeps_count :
      (m : Map (Value F)) (v : Value F)
      → lookup worker_count_key m ≡ some v
      → is_valid_non_negative_int32 F v ≡ true
      → lookup worker_count_key (clean_state F (some m)) ≡ some v
  unfolding clean_state
  clean_state-keeps_count m v h valid =
      drop_unless-other _ last_no_sync_key worker_count_key _ refl
      ∙ drop_unless-other _ last_down_key worker_count_key _ refl
      ∙ drop_unless-other _ last_up_key worker_count_key _ refl
      ∙ drop_unless-keeps _ worker_count_key _ (rw earlier valid)
      ∙ earlier
    where
      earlier :
          lookup worker_count_key (
            drop_unless F (is_not_non_positive_float64 F) capacity_key (
              drop_unless F (is_finite_float64 F) capacity_key (
                drop_unless F (is_finite_float64 F) dispatch_rate_key (
                  drop_unless F
                    (is_finite_float64 F)
                    arrival_rate_key
                    (keep_keys (contains valid_state_keys) m)))))
          ≡ some v
      earlier =
          drop_unless-other _ capacity_key worker_count_key _ refl
          ∙ drop_unless-other _ capacity_key worker_count_key _ refl
          ∙ drop_unless-other _ dispatch_rate_key worker_count_key _ refl
          ∙ drop_unless-other _ arrival_rate_key worker_count_key _ refl
          ∙ lookup-keep_keys (contains valid_state_keys) worker_count_key m
          ∙ h

  count_of_stored :
      (config : ScalingAlgorithmConfig F) (c : Map (Value F)) (n : ℤ)
      → lookup worker_count_key c ≡ some (int64 n)
      → pos 0 ≤ℤ n
      → n ≤ℤ max_int32
      → planned_count F config c ≡ n
  unfolding planned_count get_int64_from_map int64_or
  count_of_stored config c (pos k) h low high = rw (h, h) (wrap32_lem (pos k) (omega arith))
  count_of_stored config c (negsuc k) h low high = absurd (omega arith)

  -- A count that was written is the planned count of the next operation.
  pub current_count-written :
      (config : ScalingAlgorithmConfig F) (m : Map (Value F)) (n : ℤ)
      → lookup worker_count_key m ≡ some (int64 n)
      → pos 0 ≤ℤ n
      → n ≤ℤ max_int32
      → current_count F config (some m) ≡ n
  current_count-written config m n h low high =
      count_of_stored config (clean_state F (some m)) n
        (clean_state-keeps_count m (int64 n) h (ground arith)) low high
