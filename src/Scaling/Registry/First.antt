-- ===== src/Scaling/Registry/First.antt =====
-- registry.go: what a sequence of registrations leaves.
use temporal_auto_scaled_wor.Prelude.{
  String, str_eq, Bool, true, false, Option, none, some, List, [], ◌∷◌, if◌then◌else◌, Float64,
  Result, ok,
}
use temporal_auto_scaled_wor.Iface.Spec.{contains}
use temporal_auto_scaled_wor.Scaling.Registry.{
  AlgorithmError, ScalingAlgorithm, Registry, register_scaling_algorithm, constructed,
}

-- The first of two optional values.
abbrev or_else {ℓ} : {A : Type ℓ} → Option A → Option A → Option A
or_else none p = p
or_else (some a) p = some a

abbrev given_if {ℓ} : {A : Type ℓ} → Bool → A → Option A
given_if true a = some a
given_if false a = none

module _ (F : Float64) where
  -- A call of RegisterScalingAlgorithm.
  pub record Registration : Type 0 where
    pub type_name : String
    pub constructor : Result AlgorithmError (ScalingAlgorithm F)
    pub providers : List String

  abbrev pub register_all : List Registration → Registry F → Registry F
  register_all [] r = r
  register_all (x ∷ xs) r =
      register_all xs (register_scaling_algorithm x.type_name x.constructor x.providers r)

  -- The first registration of a type, and the first that lists a provider.
  abbrev pub first_constructor :
      String → List Registration → Option (Result AlgorithmError (ScalingAlgorithm F))
  first_constructor k [] = none
  first_constructor k (x ∷ xs) =
      let later = first_constructor k xs in
      if str_eq x.type_name k then some x.constructor else later

  abbrev pub first_default : String → List Registration → Option String
  first_default p [] = none
  first_default p (x ∷ xs) =
      let later = first_default p xs in if contains x.providers p then some x.type_name else later

  -- What the first registrations give for a provider.
  abbrev pub default_by_first :
      List Registration → Option String → Result AlgorithmError (Option (ScalingAlgorithm F))
  default_by_first xs none = ok none
  default_by_first xs (some k) = constructed (first_constructor k xs)
