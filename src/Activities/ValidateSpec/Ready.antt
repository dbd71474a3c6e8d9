-- ===== src/Activities/ValidateSpec/Ready.antt =====
-- ValidateSpec: what a specification that passes establishes.
use mathlib.Core.List.{Memᴰ}
use temporal_auto_scaled_wor.Prelude.{
  Bool, true, false, not, ◌&&◌, String, str_eq, Option, none, some, List, [], ◌∷◌, is_empty,
  Float64, Result, ok, err, ◌>>=◌, >>=-eq-ok, ◌⊎◌, inl, inr, ◌≡◌, refl, sym, ap, subst, ◌∙◌,
}
use temporal_auto_scaled_wor.Iface.Types.{
  ScalingAlgorithmConfig, ScalingAlgorithmSpec, ScalingGroupSpec, ComputeProviderSpec, Groups,
}
use temporal_auto_scaled_wor.ComputeProvider.{ComputeProvider, get_compute_provider}
use temporal_auto_scaled_wor.Scaling.Registry.{ScalingAlgorithm, get_scaling_algorithm}
use temporal_auto_scaled_wor.Activities.{Activities, ActivityError}
use temporal_auto_scaled_wor.Iface.Spec.{contains}
use temporal_auto_scaled_wor.Activities.ValidateSpec.{
  entries_of, invalid, or_fail, or_missing, none_of, unless, contains_strategy, find_provider,
  no_provider, no_algorithm, check_scaling_with, check_scaling, check_provider, check_entry,
  check_entries, validate_spec,
}

or_fail-ok {ℓ κ} :
    {E : Type κ} {A : Type ℓ} (f : E → ActivityError) (r : Result E A) (x : A)
    → or_fail f r ≡ ok x
    → r ≡ ok x
or_fail-ok f (err e) x h = cc
or_fail-ok f (ok y) x h = cc

or_missing-ok {ℓ} :
    {A : Type ℓ} (e : ActivityError) (o : Option A) (x : A) → or_missing e o ≡ ok x → o ≡ some x
or_missing-ok e none x h = cc
or_missing-ok e (some y) x h = cc

none_of-ok {κ} :
    {E : Type κ} (f : E → ActivityError) (o : Option E) → none_of f o ≡ ok tt → o ≡ none
none_of-ok f none h = refl
none_of-ok f (some e) h = cc

unless-ok : (b : Bool) (e : ActivityError) → unless b e ≡ ok tt → b ≡ true
unless-ok true e h = refl
unless-ok false e h = cc

region-allowed :
    (rs : List String) (b : Bool) (e : ActivityError)
    → unless (not (not (is_empty rs) && b)) e ≡ ok tt
    → (rs ≡ []) ⊎ (b ≡ false)
region-allowed [] b e h = inl refl
region-allowed (r ∷ rs) true e h = cc
region-allowed (r ∷ rs) false e h = inr refl

module _ {F : Float64} where
  check_provider-ok :
      (skip : List String) (key : String) (p : ComputeProvider F) (c : ScalingAlgorithmConfig F)
      → check_provider skip key p c ≡ ok tt
      → contains skip key ≡ false
      → p.validate_config (entries_of c) ≡ none
  check_provider-ok skip key p c h checked =
      none_of-ok (λ e. invalid key e.message) (p.validate_config (entries_of c)) (rw checked at h)

module _ {F : Float64} {P : Type 0} where
  -- The algorithm of a group with its configuration, where the group names one; a group that names
  -- none takes the default of its provider, which ValidateSpec does not look up.
  abbrev pub HasScaling :
      Activities F P → ComputeProvider F → Option (ScalingAlgorithmSpec P) → Type 0
  HasScaling a p none = Unit {0}
  HasScaling a p (some s) =
      (g : ScalingAlgorithm F) × (c : ScalingAlgorithmConfig F) × (get_scaling_algorithm
          a.enabled_algorithms s.scaling_algorithm a.registry
        ≡ ok (some g))
      × (a.decode s.config ≡ ok c)
      × (g.validate_config c ≡ none)
      × (contains_strategy g.compatible_launch_strategies p.launch_strategy ≡ true)

  -- A group that is fit for use: regions only where the server has one; an enabled provider, whose
  -- check its configuration passes unless that is skipped; and its algorithm, if it names one.
  abbrev pub IsReady : Activities F P → List String → String × ScalingGroupSpec P → Type 0
  IsReady a skip (key, entry) =
      ((entry.region_ids ≡ []) ⊎ (str_eq a.region_id "" ≡ false))
      × (p : ComputeProvider F) × (c : ScalingAlgorithmConfig F) × (get_compute_provider
            a.enabled_providers entry.compute.provider_type a.providers
          ≡ ok (some p))
      × (a.decode entry.compute.config ≡ ok c)
      × (contains skip key ≡ false → p.validate_config (entries_of c) ≡ none)
      × HasScaling a p entry.scaling

  check_scaling-HasScaling :
      (a : Activities F P) (key provider : String) (p : ComputeProvider F)
      (o : Option (ScalingAlgorithmSpec P))
      → check_scaling a key provider p o ≡ ok tt
      → HasScaling a p o
  unfolding check_scaling
  check_scaling-HasScaling a key provider p none h = tt
  check_scaling-HasScaling a key provider p (some s) h =
      let (g, found, rest) =
        >>=-eq-ok
          (or_fail (invalid key)
              (get_scaling_algorithm a.enabled_algorithms s.scaling_algorithm a.registry)
            >>= or_missing (invalid key (no_algorithm s.scaling_algorithm)))
          (check_scaling_with a key provider p s) h in
      let (o, asked, present) =
        >>=-eq-ok
          (or_fail (invalid key)
            (get_scaling_algorithm a.enabled_algorithms s.scaling_algorithm a.registry))
          (or_missing (invalid key (no_algorithm s.scaling_algorithm))) found in
      let (c, decoded, checked) = >>=-eq-ok (or_fail (invalid key) (a.decode s.config)) _ rest in
      let (u, valid, fits) = >>=-eq-ok (none_of (invalid key) (g.validate_config c)) _ checked in
      (
        g,
        c,
        or_fail-ok (invalid key) _ o asked ∙ ap (λ q. ok q) (or_missing-ok _ o g present),
        or_fail-ok (invalid key) _ c decoded,
        none_of-ok (invalid key) _ valid,
        unless-ok _ _ fits,
      )

  find_provider-ok :
      (a : Activities F P) (failed : String → ActivityError) (missing : ActivityError)
      (c : ComputeProviderSpec P) (p : ComputeProvider F)
      → find_provider a failed missing c ≡ ok p
      → get_compute_provider a.enabled_providers c.provider_type a.providers ≡ ok (some p)
  unfolding find_provider
  find_provider-ok a failed missing c p h =
      let (o, asked, present) =
        >>=-eq-ok
          (or_fail (λ e. failed e.message)
            (get_compute_provider a.enabled_providers c.provider_type a.providers))
          (or_missing missing) h in
      or_fail-ok _ _ o asked ∙ ap (λ q. ok q) (or_missing-ok missing o p present)

  check_entry-IsReady :
      (a : Activities F P) (skip : List String) (key : String) (entry : ScalingGroupSpec P)
      → check_entry a skip (key, entry) ≡ ok tt
      → IsReady a skip (key, entry)
  unfolding check_entry
  check_entry-IsReady a skip key entry h =
      let (u, here, rest) =
        >>=-eq-ok (unless (not (not (is_empty entry.region_ids) && str_eq a.region_id "")) _) _ h in
      let (p, found, rest2) =
        >>=-eq-ok
          (find_provider a (invalid key) (invalid key (no_provider entry.compute.provider_type))
            entry.compute)
          _ rest in
      let (c, decoded, rest3) =
        >>=-eq-ok (or_fail (invalid key) (a.decode entry.compute.config)) _ rest2 in
      let (v, valid, scaled) = >>=-eq-ok (check_provider skip key p c) _ rest3 in
      (
        region-allowed entry.region_ids (str_eq a.region_id "") _ here,
        p,
        c,
        find_provider-ok a _ _ entry.compute p found,
        or_fail-ok (invalid key) _ c decoded,
        check_provider-ok skip key p c valid,
        check_scaling-HasScaling a key entry.compute.provider_type p entry.scaling scaled,
      )

  -- Each group of a specification that passes ValidateSpec has regions only if the server has one,
  -- and a provider that is enabled, whose configuration decodes and passes the provider's own check,
  -- unless the group is listed to skip it; and if the group names an algorithm, that one is enabled,
  -- its configuration decodes and passes the algorithm's own check, and the algorithm can drive the
  -- provider's launch strategy.
  pub validate_spec-IsReady :
      (a : Activities F P) (groups : Groups P) (skip : List String)
      (e : String × ScalingGroupSpec P)
      → validate_spec a (some groups) skip ≡ ok tt
      → Memᴰ e groups
      → IsReady a skip e
  unfolding validate_spec check_entries
  validate_spec-IsReady a [] skip e h i = elim i [ ]
  validate_spec-IsReady a ((key, entry) ∷ groups) skip e h (Memᴰ.head same) =
      subst (IsReady a skip) (sym same) (
        check_entry-IsReady a skip key entry
          (let (u, here, rest) = >>=-eq-ok (check_entry a skip (key, entry)) _ h in here))
  validate_spec-IsReady a (entry ∷ groups) skip e h (Memᴰ.tail i) =
      let (u, here, rest) = >>=-eq-ok (check_entry a skip entry) _ h in
      validate_spec-IsReady a groups skip e rest i
