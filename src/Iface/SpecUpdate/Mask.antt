-- ===== src/Iface/SpecUpdate/Mask.antt =====
-- spec_update.go: what applyFieldMask makes of each field.
use temporal_auto_scaled_wor.Prelude.{
  Bool, true, false, ◌||◌, String, str_eq, List, [], ◌∷◌, any, if◌then◌else◌, Result, ok, err, ◌≡◌,
  refl, ◌⊎◌,
}
use temporal_auto_scaled_wor.Iface.Types.{ScalingGroupSpec}
use temporal_auto_scaled_wor.Iface.SpecUpdate.{MaskError}

-- The paths of a mask.
abbrev pub supported_paths : List String
supported_paths =
    "task_queue_types" ∷ "region_ids" ∷ "provider" ∷ "provider.type" ∷ "provider.details"
    ∷ "provider.nexus_endpoint" ∷ "scaler" ∷ "scaler.type" ∷ "scaler.details" ∷ []

abbrev pub lists : List String → String → Bool
lists paths p = any (λ x. str_eq x p) paths

taken {ℓ} :
    {A : Type ℓ} (b c : Bool) (x y z : A)
    → y ≡ (if b then x else z)
    → (if c then x else y) ≡ (if b || c then x else z)
taken true true x y z h = refl
taken true false x y z h = h
taken false true x y z h = refl
taken false false x y z h = h

module _ {P : Type 0} where
  abbrev IfOk {ℓ} : (ScalingGroupSpec P → Type ℓ) → Result MaskError (ScalingGroupSpec P) → Type ℓ
  IfOk Q (err e) = Unit {_}
  IfOk Q (ok g) = Q g

module _ {P : Type 0} {A : Type 0} (field : ScalingGroupSpec P → A) (touches : String → Bool) where
  -- A path that succeeds takes the field over if it touches it, and else leaves it.
  abbrev IsTaken : ScalingGroupSpec P → ScalingGroupSpec P → String → ScalingGroupSpec P → Type 0
  IsTaken dst src p g = field g ≡ (if touches p then field src else field dst)

abbrev pub touches_scaler : String → Bool
touches_scaler p = str_eq p "scaler" || str_eq p "scaler.type" || str_eq p "scaler.details"

module _ {P : Type 0} where
  -- A path that does not touch the scaling algorithm leaves it.
  abbrev IsApart : ScalingGroupSpec P → String → ScalingGroupSpec P → Type 0
  IsApart d p g = touches_scaler p ≡ false → g.scaling ≡ d.scaling

  -- The path of the whole takes it over, and none gives up what was taken over.
  abbrev IsWhole : ScalingGroupSpec P → ScalingGroupSpec P → String → ScalingGroupSpec P → Type 0
  IsWhole d src p g =
      (str_eq p "scaler" ≡ true) ⊎ (d.scaling ≡ src.scaling) → g.scaling ≡ src.scaling

module _ {P : Type 0} where
  -- The fields of a group that a mask has been applied to.
  pub record IsMasked (dst src : ScalingGroupSpec P) (paths : List String) (g : ScalingGroupSpec P)
      : Type 0 where
    pub task_types :
        g.task_types ≡ (if lists paths "task_queue_types" then src.task_types else dst.task_types)
    pub region_ids :
        g.region_ids ≡ (if lists paths "region_ids" then src.region_ids else dst.region_ids)
    pub provider_type : g.compute.provider_type ≡ (
        if any (λ p. str_eq p "provider" || str_eq p "provider.type") paths
        then src.compute.provider_type
        else dst.compute.provider_type)
    pub details : g.compute.config ≡ (
        if any (λ p. str_eq p "provider" || str_eq p "provider.details") paths
        then src.compute.config
        else dst.compute.config)
    pub nexus_endpoint : g.compute.nexus_endpoint ≡ (
        if any (λ p. str_eq p "provider" || str_eq p "provider.nexus_endpoint") paths
        then src.compute.nexus_endpoint
        else dst.compute.nexus_endpoint)
    pub whole_scaling : lists paths "scaler" ≡ true → g.scaling ≡ src.scaling
    pub kept_scaling : any touches_scaler paths ≡ false → g.scaling ≡ dst.scaling
