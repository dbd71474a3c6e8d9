-- ===== src/Iface/SpecUpdate.antt =====
-- wci/workflow/iface/spec_update.go: the specification that an update request makes of the current one.
pub mod Mask
pub mod Skipping
pub mod Outcome
use text.Mathlib.Text.{starts_with}
use temporal_auto_scaled_wor.Prelude.{
  if◌then◌else◌, Bool, true, false, not, ◌&&◌, ◌||◌, String, str_eq, Option, none, some, List, [],
  ◌∷◌, map, any, keep_if, is_empty, Map, lookup, insert, delete, Result, ok, err, ◌>>=◌,
}
use temporal_auto_scaled_wor.Iface.Types.{
  ScalingGroupSpec, ComputeProviderSpec, ScalingAlgorithmSpec, ScalingGroupSpecUpdate, Groups,
  UpdateRequest,
}
use temporal_auto_scaled_wor.Iface.Spec.{contains, clone}

pub data MaskError : Type 0 where
  scaler_type_not_provided scaler_details_not_provided : MaskError
  unsupported_path : String → MaskError

module _ {P : Type 0} where
  -- `dst.Scaling`, made if it is nil.
  abbrev pub scaling_or_new : Option (ScalingAlgorithmSpec P) → ScalingAlgorithmSpec P
  scaling_or_new none = record { scaling_algorithm = ""; config = none }
  scaling_or_new (some s) = s

  unfoldable pub set_scaler_type :
      ScalingGroupSpec P → Option (ScalingAlgorithmSpec P) → Result MaskError (ScalingGroupSpec P)
  set_scaler_type dst none = err scaler_type_not_provided
  set_scaler_type dst (some s) =
      let scaling = scaling_or_new dst.scaling in
      ok
        (record dst { scaling = some (record scaling { scaling_algorithm = s.scaling_algorithm }) })

  unfoldable pub set_scaler_details :
      ScalingGroupSpec P → Option (ScalingAlgorithmSpec P) → Result MaskError (ScalingGroupSpec P)
  set_scaler_details dst none = err scaler_details_not_provided
  set_scaler_details dst (some s) =
      let scaling = scaling_or_new dst.scaling in
      ok (record dst { scaling = some (record scaling { config = s.config }) })

  -- The `switch` for one path.
  unfoldable pub apply_path :
      ScalingGroupSpec P → ScalingGroupSpec P → String → Result MaskError (ScalingGroupSpec P)
  unfolding set_scaler_type set_scaler_details
  apply_path dst src path =
      let compute = dst.compute in
      if str_eq path "task_queue_types"
      then ok (record dst { task_types = src.task_types })
      else if str_eq path "region_ids"
      then ok (record dst { region_ids = src.region_ids })
      else if str_eq path "provider"
      then ok (record dst { compute = src.compute })
      else if str_eq path "provider.type"
      then ok
          (record dst { compute = record compute { provider_type = src.compute.provider_type } })
      else if str_eq path "provider.details"
      then ok (record dst { compute = record compute { config = src.compute.config } })
      else if str_eq path "provider.nexus_endpoint"
      then ok
          (record dst { compute = record compute { nexus_endpoint = src.compute.nexus_endpoint } })
      else if str_eq path "scaler"
      then ok (record dst { scaling = src.scaling })
      else if str_eq path "scaler.type"
      then set_scaler_type dst src.scaling
      else if str_eq path "scaler.details"
      then set_scaler_details dst src.scaling
      else err (unsupported_path path)

  unfoldable pub apply_field_mask :
      ScalingGroupSpec P → ScalingGroupSpec P → List String → Result MaskError (ScalingGroupSpec P)
  apply_field_mask dst src [] = ok dst
  apply_field_mask dst src (path ∷ paths) =
      apply_path dst src path >>= λ dst'. apply_field_mask dst' src paths

-- Does a path touch what the provider's validation reads?
unfoldable pub changes_provider : String → Bool
changes_provider path = starts_with path "provider" && not (str_eq path "provider.nexus_endpoint")

-- The names other than one.
abbrev pub without : String → List String → List String
without name = keep_if (λ n. not (str_eq n name))

abbrev pub keys {ℓ} : {V : Type ℓ} → Map V → List String
keys = map (λ e. e.0)

module _ {P : Type 0} where
  unfoldable pub clone_all : Groups P → Groups P
  clone_all [] = []
  clone_all ((k, g) ∷ m) = (k, clone g) ∷ clone_all m

  abbrev pub current_groups : Option (Groups P) → Groups P
  current_groups none = []
  current_groups (some m) = m

  -- The zero value, which a read of a missing key gives.
  abbrev pub update_or_zero : Option (ScalingGroupSpecUpdate P) → ScalingGroupSpecUpdate P
  update_or_zero (some u) = u
  update_or_zero none = record {
    spec = record {
      task_types = [];
      region_ids = [];
      compute = record { provider_type = ""; config = none; nexus_endpoint = "" };
      scaling = none;
    };
    update_mask = [];
  }

module _ {P : Type 0} where
  abbrev pub upsert_into :
      Option (ScalingGroupSpec P)
      → String
      → ScalingGroupSpecUpdate P
      → Groups P × List String
      → Result MaskError (Groups P × List String)
  upsert_into none name u (groups, skip) = ok (insert name (clone u.spec) groups, skip)
  upsert_into (some existing) name u (groups, skip) =
      if is_empty u.update_mask
      then ok (groups, skip)
      else (apply_field_mask existing u.spec u.update_mask >>= λ dst. ok (
        insert name dst groups,
        (if any changes_provider u.update_mask then without name skip else skip),
      ))

  -- One round of the loop over the upserts.
  unfoldable pub upsert :
      Map (ScalingGroupSpecUpdate P)
      → String
      → Groups P × List String
      → Result MaskError (Groups P × List String)
  upsert upserts name (groups, skip) =
      upsert_into (lookup name groups) name (update_or_zero (lookup name upserts)) (groups, skip)

  unfoldable pub upsert_all :
      Map (ScalingGroupSpecUpdate P)
      → List String
      → Groups P × List String
      → Result MaskError (Groups P × List String)
  upsert_all upserts [] progress = ok progress
  upsert_all upserts (name ∷ names) progress =
      upsert upserts name progress >>= upsert_all upserts names

  unfoldable pub remove_all : List String → Groups P → Groups P
  remove_all [] groups = groups
  remove_all (name ∷ names) groups = remove_all names (delete name groups)

  -- `order` is the SDK's `workflow.DeterministicKeys` on the keys of a map.
  unfoldable pub build_updated_spec :
      (List String → List String)
      → Option (Groups P)
      → UpdateRequest P
      → Result MaskError (Groups P × List String)
  build_updated_spec order current args =
      let groups = clone_all (current_groups current) in
      let unchanged = is_empty args.upsert_scaling_groups && is_empty args.remove_scaling_groups in
      let skip =
        if unchanged
        then []
        else keep_if (λ n. not (contains args.remove_scaling_groups n)) (order (keys groups)) in
      upsert_all args.upsert_scaling_groups (order (keys args.upsert_scaling_groups)) (groups, skip)
      >>= λ progress. ok (remove_all args.remove_scaling_groups progress.0, progress.1)
