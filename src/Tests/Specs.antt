-- ===== src/Tests/Specs.antt =====
-- spec.go, spec_update.go and map_access.go: the theorems at concrete specifications and updates.
use mathlib.Core.List.{Memᴰ}
use temporal_auto_scaled_wor.Prelude.{
  ℕ, String, none, some, List, [], ◌∷◌, lookup, insert, delete, ok, true, false, ◌≡◌, refl, sym, ap,
  ◌∙◌, ◌↔◌, false≢true, eq_iff,
}
use temporal_auto_scaled_wor.Iface.Types.{
  TaskQueueType, workflow, activity, nexus, ScalingGroupSpec, Groups, UpdateRequest,
}
use temporal_auto_scaled_wor.Iface.Spec.{
  validate, valid_compute_provider_type, valid_scaling_algorithm_type, claim_rank, claimed_group,
  clone, regions_distinct, add_catch_alls, add_task_types, add_regions, algorithm_error,
  provider_error, check_group, check_groups, check_catch_alls, collect_regions, text_le,
  insert_sorted, sort, listed_region_ids, check_regions_after, check_regions,
  scaling_group_key_for_task_queue_type, effective_task_types_for_group, contains_type,
  task_types_served_in_region,
}
use temporal_auto_scaled_wor.Iface.Spec.Claims.{HasUniqueClaims}
use temporal_auto_scaled_wor.Iface.Spec.Uniqueness.{validate-HasUniqueClaims}
use temporal_auto_scaled_wor.Iface.Spec.Serving.{
  HasUniqueKeys, effective_iff_key, validate-key_of_SameEntries,
}
use temporal_auto_scaled_wor.Iface.Spec.Regions.{validate-equal_regions}
use temporal_auto_scaled_wor.Iface.SpecUpdate.{
  current_groups, set_scaler_type, set_scaler_details, apply_path, apply_field_mask,
  changes_provider, clone_all, upsert, upsert_all, remove_all, build_updated_spec,
}
use temporal_auto_scaled_wor.Iface.SpecUpdate.Skipping.{
  build_updated_spec-skip_safe, HasSameProvider,
}
use temporal_auto_scaled_wor.Iface.SpecUpdate.Outcome.{build_updated_spec-IsOutcome, IsOutcome}

abbrev pub group_of : List TaskQueueType → List String → ℕ → ScalingGroupSpec ℕ
group_of types regions config = record {
  task_types = types;
  region_ids = regions;
  compute = record { provider_type = "aws-lambda"; config = some config; nexus_endpoint = "" };
  scaling = some (record { scaling_algorithm = "no-sync"; config = none });
}

abbrev pub listed_group : ScalingGroupSpec ℕ
listed_group = group_of (workflow ∷ []) ("us" ∷ "eu" ∷ []) 1

abbrev pub rest_group : ScalingGroupSpec ℕ
rest_group = group_of [] ("us" ∷ "eu" ∷ []) 2

abbrev pub two_groups : Groups ℕ
two_groups = ("a", listed_group) ∷ ("b", rest_group) ∷ []

abbrev turned_groups : Groups ℕ
turned_groups = ("b", rest_group) ∷ ("a", listed_group) ∷ []

pub two_groups_valid : validate (some two_groups) ≡ ok tt
unfolding valid_compute_provider_type valid_scaling_algorithm_type claim_rank claimed_group
    scaling_group_key_for_task_queue_type effective_task_types_for_group task_types_served_in_region
    regions_distinct add_catch_alls add_task_types add_regions algorithm_error provider_error
    check_group check_groups check_catch_alls collect_regions text_le insert_sorted sort
    listed_region_ids check_regions_after check_regions validate lookup
two_groups_valid = refl

validate-HasUniqueClaims_example : HasUniqueClaims workflow "us" two_groups
validate-HasUniqueClaims_example =
    validate-HasUniqueClaims two_groups two_groups_valid workflow "us"

turn : (e f g : String × ScalingGroupSpec ℕ) → Memᴰ g (e ∷ f ∷ []) → Memᴰ g (f ∷ e ∷ [])
turn e f g (Memᴰ.head p) = Memᴰ.tail (Memᴰ.head p)
turn e f g (Memᴰ.tail (Memᴰ.head p)) = Memᴰ.head p
turn e f g (Memᴰ.tail (Memᴰ.tail h)) = elim h [ ]

validate-key_of_SameEntries_example :
    scaling_group_key_for_task_queue_type two_groups activity "eu"
    ≡ scaling_group_key_for_task_queue_type turned_groups activity "eu"
validate-key_of_SameEntries_example =
    validate-key_of_SameEntries two_groups turned_groups activity "eu" two_groups_valid
      (turn ("a", listed_group) ("b", rest_group), turn ("b", rest_group) ("a", listed_group))

validate-equal_regions_example :
    task_types_served_in_region two_groups "us" ≡ task_types_served_in_region two_groups "eu"
validate-equal_regions_example =
    validate-equal_regions two_groups "us" "eu" ("a", listed_group) ("b", rest_group)
      two_groups_valid (Memᴰ.head refl) refl (Memᴰ.tail (Memᴰ.head refl)) refl

pub two_unique : HasUniqueKeys two_groups
two_unique e f (Memᴰ.head p) (Memᴰ.head q) h = p ∙ sym q
two_unique e f (Memᴰ.head p) (Memᴰ.tail (Memᴰ.head q)) h =
    absurd (false≢true ((eq_iff "a" "b").1 (ap (λ x. x.0) (sym p) ∙ h ∙ ap (λ x. x.0) q)))
two_unique e f (Memᴰ.tail (Memᴰ.head p)) (Memᴰ.head q) h =
    absurd (false≢true ((eq_iff "b" "a").1 (ap (λ x. x.0) (sym p) ∙ h ∙ ap (λ x. x.0) q)))
two_unique e f (Memᴰ.tail (Memᴰ.head p)) (Memᴰ.tail (Memᴰ.head q)) h = p ∙ sym q
two_unique e f (Memᴰ.tail (Memᴰ.tail p)) q h = elim p [ ]
two_unique e f (Memᴰ.head p) (Memᴰ.tail (Memᴰ.tail q)) h = elim q [ ]
two_unique e f (Memᴰ.tail (Memᴰ.head p)) (Memᴰ.tail (Memᴰ.tail q)) h = elim q [ ]

effective_iff_key_example :
    (contains_type (effective_task_types_for_group two_groups "b" "us") nexus ≡ true)
    ↔ (scaling_group_key_for_task_queue_type two_groups nexus "us" ≡ "b")
effective_iff_key_example =
    effective_iff_key two_groups "b" "us" nexus two_unique (λ e. false≢true ((eq_iff "b" "").1 e))

-- An update that changes the first group's regions, adds one and removes one.
abbrev pub update : UpdateRequest ℕ
update = record {
  identity = "me";
  conflict_token = none;
  upsert_scaling_groups =
      ("a", record { spec = group_of [] ("eu" ∷ []) 7; update_mask = "region_ids" ∷ [] })
      ∷ ("c", record { spec = group_of (nexus ∷ []) [] 3; update_mask = [] })
      ∷ [];
  remove_scaling_groups = "b" ∷ [];
}

abbrev pub updated_groups : Groups ℕ
updated_groups =
    ("a", group_of (workflow ∷ []) ("eu" ∷ []) 1) ∷ ("c", group_of (nexus ∷ []) [] 3) ∷ []

-- The keys as they are: an order that the SDK may choose.
abbrev pub as_given : List String → List String
as_given ks = ks

pub update_runs :
    build_updated_spec as_given (some two_groups) update ≡ ok (updated_groups, "a" ∷ [])
unfolding set_scaler_type set_scaler_details apply_path apply_field_mask changes_provider clone_all
    upsert upsert_all remove_all build_updated_spec clone insert delete lookup
update_runs = refl

build_updated_spec-skip_safe_example :
    (g h : ScalingGroupSpec ℕ) × (lookup "a" (current_groups (some two_groups)) ≡ some g)
    × (lookup "a" updated_groups ≡ some h)
    × HasSameProvider g h
build_updated_spec-skip_safe_example =
    build_updated_spec-skip_safe as_given (some two_groups) update updated_groups ("a" ∷ []) "a"
      (λ ks h. h) update_runs refl

build_updated_spec-IsOutcome_example :
    IsOutcome false
      (lookup "a" two_groups)
      (lookup "a" update.upsert_scaling_groups)
      (lookup "a" updated_groups)
build_updated_spec-IsOutcome_example =
    build_updated_spec-IsOutcome as_given (some two_groups) update updated_groups ("a" ∷ []) "a"
      (record { same_keys = λ ks k. refl; distinct = λ ks h. h }) (refl, (refl, tt)) update_runs
