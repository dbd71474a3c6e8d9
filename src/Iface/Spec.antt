-- ===== src/Iface/Spec.antt =====
-- wci/workflow/iface/spec.go: which scaling group serves a task queue type, and the validation of a
-- specification.
pub mod Claims
pub mod Uniqueness
pub mod Serving
pub mod Regions
use Prim.Native.String.{compare as compare_text}
use Prim.Native.Nat.{Ordering}
use temporal_auto_scaled_wor.Prelude.{
  ℕ, ℤ, pos, negsuc, ltb_ℤ, ltb, if◌then◌else◌, Bool, true, false, not, ◌&&◌, ◌||◌, String, str_eq,
  Option, none, some, List, [], ◌∷◌, ◌++◌, map, any, all, keep_if, is_empty, length, Map, lookup,
  insert, Result, ok, err, ◌>>=◌,
}
use temporal_auto_scaled_wor.Iface.Types.{
  TaskQueueType, unspecified, workflow, activity, nexus, type_eq, ScalingGroupSpec, Groups,
  ComputeProviderSpec, ScalingAlgorithmSpec,
}

abbrev pub compute_provider_types : List String
compute_provider_types =
    "aws-lambda" ∷ "aws-agentcore" ∷ "aws-ecs" ∷ "subprocess" ∷ "k8s" ∷ "gcp-cloud-run"
    ∷ "test-invoke" ∷ "test-worker-set" ∷ []

abbrev pub scaling_algorithm_types : List String
scaling_algorithm_types = "no-sync" ∷ "rate-based" ∷ []

-- `slices.Contains` on texts and on task types.
abbrev pub contains : List String → String → Bool
contains xs s = any (λ x. str_eq x s) xs

abbrev pub contains_type : List TaskQueueType → TaskQueueType → Bool
contains_type ts t = any (λ u. type_eq u t) ts

unfoldable pub valid_compute_provider_type : String → Bool
valid_compute_provider_type s = contains compute_provider_types s

unfoldable pub valid_scaling_algorithm_type : String → Bool
valid_scaling_algorithm_type s = contains scaling_algorithm_types s

abbrev pub scalable_task_queue_types : List TaskQueueType
scalable_task_queue_types = activity ∷ nexus ∷ workflow ∷ []

module _ {P : Type 0} where
  unfoldable pub claim_rank : ScalingGroupSpec P → TaskQueueType → String → ℤ
  claim_rank g t region_id =
      let has_region_ids = not (is_empty g.region_ids) in
      let has_task_types = not (is_empty g.task_types) in
      if has_region_ids && not (contains g.region_ids region_id)
      then negsuc 0
      else if has_task_types && not (contains_type g.task_types t)
      then negsuc 0
      else if not has_task_types && not (contains_type scalable_task_queue_types t)
      then negsuc 0
      else if has_region_ids && has_task_types
      then pos 3
      else if has_region_ids
      then pos 2
      else if has_task_types
      then pos 1
      else pos 0

  -- One round of the loop over the groups.
  abbrev pub better : TaskQueueType → String → String × ScalingGroupSpec P → String × ℤ → String × ℤ
  better t region_id (k, g) (claimed, rank) =
      if ltb_ℤ rank (claim_rank g t region_id)
      then (k, claim_rank g t region_id)
      else (claimed, rank)

  unfoldable pub claimed_group : TaskQueueType → String → Groups P → String × ℤ → String × ℤ
  claimed_group t region_id [] best = best
  claimed_group t region_id (entry ∷ groups) best =
      claimed_group t region_id groups (better t region_id entry best)

  -- The key of the group that serves a type in a region, or "".
  unfoldable pub scaling_group_key_for_task_queue_type : Groups P → TaskQueueType → String → String
  unfolding claimed_group
  scaling_group_key_for_task_queue_type groups t region_id =
      (claimed_group t region_id groups ("", negsuc 0)).0

  abbrev pub candidate_types : ScalingGroupSpec P → List TaskQueueType
  candidate_types g = if is_empty g.task_types then scalable_task_queue_types else g.task_types

  abbrev pub serves : Groups P → String → String → TaskQueueType → Bool
  serves groups k region_id t = str_eq (scaling_group_key_for_task_queue_type groups t region_id) k

  -- The nil slice for an unknown group is the empty list.
  abbrev pub effective_of :
      Groups P → String → String → Option (ScalingGroupSpec P) → List TaskQueueType
  effective_of groups k region_id none = []
  effective_of groups k region_id (some g) = keep_if (serves groups k region_id) (candidate_types g)

  unfoldable pub effective_task_types_for_group : Groups P → String → String → List TaskQueueType
  effective_task_types_for_group groups k region_id =
      effective_of groups k region_id (lookup k groups)

  unfoldable pub task_types_served_in_region : Groups P → String → List TaskQueueType
  task_types_served_in_region groups region_id =
      keep_if (λ t. not (str_eq (scaling_group_key_for_task_queue_type groups t region_id) ""))
        scalable_task_queue_types

  unfoldable pub clone : ScalingGroupSpec P → ScalingGroupSpec P
  clone g = record {
    task_types = g.task_types;
    region_ids = g.region_ids;
    compute = record {
      provider_type = g.compute.provider_type;
      config = g.compute.config;
      nexus_endpoint = g.compute.nexus_endpoint;
    };
    scaling = g.scaling;
  }

-- The messages of Validate, with the group and the region or the type at fault.
pub data SpecError : Type 0 where
  not_provided no_entry no_id : SpecError
  region_twice type_undefined bad_provider bad_algorithm catch_all_serves_nothing :
      String → SpecError
  catch_all_conflict : String → String → SpecError
  task_type_conflict : String → TaskQueueType → SpecError
  unequal_regions : String → String → SpecError

abbrev pub Checked : Type 0 → Type 0
Checked A = Result SpecError A

-- What the loop over the groups has seen: the types listed and the catch-alls, each by region.
pub record Seen : Type 0 where
  pub types : List (String × TaskQueueType)
  pub catch_alls : List String

abbrev pub no_seen : Seen
no_seen = record { types = []; catch_alls = [] }

abbrev pub pair_eq : String × TaskQueueType → String × TaskQueueType → Bool
pair_eq (r, t) (s, u) = str_eq r s && type_eq t u

abbrev pub has_pair : List (String × TaskQueueType) → String × TaskQueueType → Bool
has_pair ps p = any (λ q. pair_eq q p) ps

-- `slices.Contains(v.RegionIds[:i], regionID)` for each i, `before` being the reversed prefix.
unfoldable pub regions_distinct : String → List String → List String → Checked (Unit {0})
regions_distinct k before [] = ok tt
regions_distinct k before (r ∷ rs) =
    let rest = regions_distinct k (r ∷ before) rs in
    if contains before r then err (region_twice k) else rest

unfoldable pub add_catch_alls : String → List String → List String → Checked (List String)
add_catch_alls k [] seen = ok seen
add_catch_alls k (r ∷ rs) seen =
    let rest = add_catch_alls k rs (r ∷ seen) in
    if contains seen r then err (catch_all_conflict k r) else rest

abbrev pub pairs_with : TaskQueueType → List String → List (String × TaskQueueType)
pairs_with t rs = map (λ r. (r, t)) rs

unfoldable pub add_task_types :
    String
    → List String
    → List TaskQueueType
    → List (String × TaskQueueType)
    → Checked (List (String × TaskQueueType))
add_task_types k regions [] seen = ok seen
add_task_types k regions (t ∷ ts) seen =
    let rest = add_task_types k regions ts (pairs_with t regions ++ seen) in
    if any (has_pair seen) (pairs_with t regions)
    then err (task_type_conflict k t)
    else if type_eq t unspecified
    then err (type_undefined k)
    else rest

unfoldable pub add_regions : List String → List String → List String
add_regions [] seen = seen
add_regions (r ∷ rs) seen = add_regions rs (if contains seen r then seen else seen ++ r ∷ [])

abbrev pub or_no_region : List String → List String
or_no_region rs = if is_empty rs then "" ∷ [] else rs

module _ {P : Type 0} where
  unfoldable pub algorithm_error : String → Option (ScalingAlgorithmSpec P) → Checked (Unit {0})
  algorithm_error k none = ok tt
  algorithm_error k (some s) =
      if valid_scaling_algorithm_type s.scaling_algorithm then ok tt else err (bad_algorithm k)

  unfoldable pub provider_error : String → ScalingGroupSpec P → Checked (Unit {0})
  unfolding algorithm_error
  provider_error k g =
      if valid_compute_provider_type g.compute.provider_type
      then algorithm_error k g.scaling
      else err (bad_provider k)

  -- One round of the first loop of Validate.
  unfoldable pub check_group : String × ScalingGroupSpec P → Seen → Checked Seen
  check_group (k, g) seen =
      if str_eq k ""
      then err no_id
      else (regions_distinct k [] g.region_ids >>= λ _.
          (if is_empty g.task_types
            then add_catch_alls k (or_no_region g.region_ids) seen.catch_alls
            else ok seen.catch_alls)
          >>= λ catch_alls.
              add_task_types k (or_no_region g.region_ids) g.task_types seen.types >>= λ types.
              provider_error k g >>= λ _. ok (record { types = types; catch_alls = catch_alls }))

  unfoldable pub check_groups : Groups P → Seen → Checked Seen
  check_groups [] seen = ok seen
  check_groups (entry ∷ groups) seen = check_group entry seen >>= check_groups groups

  -- The second loop: every catch-all serves some type in one of its regions.
  unfoldable pub check_catch_alls : Groups P → Groups P → Checked (Unit {0})
  check_catch_alls groups [] = ok tt
  check_catch_alls groups ((k, g) ∷ rest) =
      let later = check_catch_alls groups rest in
      if not (is_empty g.task_types)
      then later
      else if any (λ r. not (is_empty (effective_task_types_for_group groups k r)))
          (or_no_region g.region_ids)
      then later
      else err (catch_all_serves_nothing k)

  unfoldable pub collect_regions : Groups P → List String → List String
  unfolding add_regions
  collect_regions [] seen = seen
  collect_regions ((k, g) ∷ groups) seen = collect_regions groups (add_regions g.region_ids seen)

-- `slices.Sort`.
unfoldable pub text_le : String → String → Bool
text_le a b = elim (compare_text a b) [ Ordering.gt ↦ false | _ ↦ true ]

unfoldable pub insert_sorted : String → List String → List String
unfolding text_le
insert_sorted a [] = a ∷ []
insert_sorted a (b ∷ bs) =
    let rest = insert_sorted a bs in if text_le a b then a ∷ b ∷ bs else b ∷ rest

unfoldable pub sort : List String → List String
unfolding insert_sorted
sort [] = []
sort (a ∷ as') = insert_sorted a (sort as')

-- `slices.Equal`.
abbrev pub types_equal : List TaskQueueType → List TaskQueueType → Bool
types_equal [] [] = true
types_equal (t ∷ ts) (u ∷ us) = type_eq t u && types_equal ts us
types_equal _ _ = false

module _ {P : Type 0} where
  unfoldable pub listed_region_ids : Groups P → List String
  listed_region_ids groups = sort (collect_regions groups [])

  unfoldable pub check_regions_after : Groups P → String → List String → Checked (Unit {0})
  check_regions_after groups first [] = ok tt
  check_regions_after groups first (r ∷ rs) =
      let rest = check_regions_after groups first rs in
      if types_equal (task_types_served_in_region groups r)
        (task_types_served_in_region groups first)
      then rest
      else err (unequal_regions first r)

  unfoldable pub check_regions : Groups P → List String → Checked (Unit {0})
  unfolding check_regions_after
  check_regions groups [] = ok tt
  check_regions groups (first ∷ rest) = check_regions_after groups first rest

  -- `none` is the nil specification.
  unfoldable pub validate : Option (Groups P) → Checked (Unit {0})
  validate none = err not_provided
  validate (some groups) =
      if is_empty groups
      then err no_entry
      else (check_groups groups no_seen >>= λ _.
          check_catch_alls groups groups >>= λ _. check_regions groups (listed_region_ids groups))
