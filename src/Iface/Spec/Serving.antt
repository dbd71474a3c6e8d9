-- ===== src/Iface/Spec/Serving.antt =====
-- spec.go: which task types a group serves in a region.
use mathlib.Core.List.{Memᴰ}
use temporal_auto_scaled_wor.Prelude.{
  negsuc, ◌<ℤ◌, pos_part, neg_part, String, str_eq, eq_iff, Bool, true, Option, none, some, List,
  [], ◌∷◌, ◌≡◌, ◌≢◌, ◌↔◌, refl, sym, ap, ◌∙◌, inl, inr, keep_if, is_empty, arith, ok, Bool-cases,
  lookup,
}
use temporal_auto_scaled_wor.Iface.Types.{
  TaskQueueType, type_eq, type_eq_sound, ScalingGroupSpec, Groups,
}
use temporal_auto_scaled_wor.Iface.Spec.{
  contains_type, candidate_types, serves, effective_of, claim_rank, validate,
  scaling_group_key_for_task_queue_type, effective_task_types_for_group,
}
use temporal_auto_scaled_wor.Iface.Spec.Claims.{
  SameEntries, key_of_SameEntries, claimed_group_source,
}
use temporal_auto_scaled_wor.Iface.Spec.Uniqueness.{validate-HasUniqueClaims}

-- A type passes a filter if it is listed and passes the test, and only then.
contains_type-keep_if :
    (p : TaskQueueType → Bool) (ts : List TaskQueueType) (t : TaskQueueType)
    → contains_type (keep_if p ts) t ≡ true
    → p t ≡ true
contains_type-keep_if p [] t h = cc
contains_type-keep_if p (u ∷ ts) t h = elim (Bool-cases (type_eq u t)) [
  | inl same ↦ elim (Bool-cases (p u)) [
    | inl pass ↦ ap p (sym (type_eq_sound u t same)) ∙ pass
    | inr fail ↦ contains_type-keep_if p ts t (ground arith)
  ]
  | inr differ ↦ contains_type-keep_if p ts t (ground arith)
]

keep_if-contains_type :
    (p : TaskQueueType → Bool) (ts : List TaskQueueType) (t : TaskQueueType)
    → contains_type ts t ≡ true
    → p t ≡ true
    → contains_type (keep_if p ts) t ≡ true
keep_if-contains_type p [] t h e = cc
keep_if-contains_type p (u ∷ ts) t h e = elim (Bool-cases (type_eq u t)) [
  | inl same ↦ ground (arith, ap p (type_eq_sound u t same))
  | inr differ ↦ ground (arith, keep_if-contains_type p ts t)
]

module _ {P : Type 0} where
  -- The keys of a Go map are distinct.
  abbrev pub HasUniqueKeys : Groups P → Type 0
  HasUniqueKeys m = (e f : String × ScalingGroupSpec P) → Memᴰ e m → Memᴰ f m → e.0 ≡ f.0 → e ≡ f

  lookup_entry :
      (m : Groups P) (k : String) (g : ScalingGroupSpec P) → lookup k m ≡ some g → Memᴰ (k, g) m
  unfolding lookup
  lookup_entry [] k g h = cc
  lookup_entry ((j, f) ∷ m) k g h = elim (Bool-cases (str_eq j k)) [
    | inl same ↦ Memᴰ.head (ground (arith, eq_iff j k))
    | inr differ ↦ Memᴰ.tail (lookup_entry m k g (ground arith))
  ]

  entry_lookup :
      (m : Groups P) (e : String × ScalingGroupSpec P)
      → Memᴰ e m
      → (g : ScalingGroupSpec P) × (lookup e.0 m ≡ some g)
  unfolding lookup
  entry_lookup [] e h = elim h [ ]
  entry_lookup ((j, f) ∷ m) e (Memᴰ.head p) = (f, ground (arith, eq_iff j e.0, ap (λ x. x.0) p))
  entry_lookup ((j, f) ∷ m) e (Memᴰ.tail i) = elim (Bool-cases (str_eq j e.0)) [
    | inl same ↦ (f, ground arith)
    | inr differ ↦ let (g, q) = entry_lookup m e i in (g, ground arith)
  ]

  unique_lookup :
      (m : Groups P) (e : String × ScalingGroupSpec P)
      → HasUniqueKeys m
      → Memᴰ e m
      → lookup e.0 m ≡ some e.1
  unique_lookup m e u i =
      let (g, q) = entry_lookup m e i in
      q ∙ ap (λ x. some x.1) (u (e.0, g) e (lookup_entry m e.0 g q) i refl)

  -- A group that claims a type lists it, or lists none and the type is scalable.
  claim_rank-candidate :
      (g : ScalingGroupSpec P) (t : TaskQueueType) (region_id : String)
      → negsuc 0 <ℤ claim_rank g t region_id
      → contains_type (candidate_types g) t ≡ true
  unfolding claim_rank
  claim_rank-candidate g t region_id h = elim (Bool-cases (is_empty g.task_types)) [
    | inl e ↦ ground arith
    | inr e ↦ ground arith
  ]

  effective-key :
      (m : Groups P) (k region_id : String) (t : TaskQueueType)
      → contains_type (effective_task_types_for_group m k region_id) t ≡ true
      → scaling_group_key_for_task_queue_type m t region_id ≡ k
  unfolding effective_task_types_for_group
  effective-key m k region_id t h = go (lookup k m) h
    where
      go :
          (o : Option (ScalingGroupSpec P))
          → contains_type (effective_of m k region_id o) t ≡ true
          → scaling_group_key_for_task_queue_type m t region_id ≡ k
      go none e = cc
      go (some g) e =
          (eq_iff _ k).0 (contains_type-keep_if (serves m k region_id) (candidate_types g) t e)

  key_entry :
      (m : Groups P) (k region_id : String) (t : TaskQueueType)
      → k ≢ ""
      → scaling_group_key_for_task_queue_type m t region_id ≡ k
      → (e : String × ScalingGroupSpec P) × Memᴰ e m
        × (e.0 ≡ k)
        × (negsuc 0 <ℤ claim_rank e.1 t region_id)
  unfolding scaling_group_key_for_task_queue_type
  key_entry m k region_id t named h = elim (claimed_group_source t region_id m "" (negsuc 0)) [
    | inl e ↦ absurd (named (sym h ∙ ap (λ x. x.0) e))
    | inr (e, i, above, q) ↦ (
      e,
      i,
      ap (λ x. x.0) (sym q) ∙ h,
      omega (arith, above, ap (λ x. pos_part x.1) q, ap (λ x. neg_part x.1) q),
    )
  ]

  key-effective :
      (m : Groups P) (k region_id : String) (t : TaskQueueType)
      → HasUniqueKeys m
      → k ≢ ""
      → scaling_group_key_for_task_queue_type m t region_id ≡ k
      → contains_type (effective_task_types_for_group m k region_id) t ≡ true
  unfolding effective_task_types_for_group
  key-effective m k region_id t u named h =
      let (e, i, same, above) = key_entry m k region_id t named h in
      rw (← same, unique_lookup m e u i)
        (keep_if-contains_type (serves m e.0 region_id) (candidate_types e.1) t
          (claim_rank-candidate e.1 t region_id above) ((eq_iff _ e.0).1 (h ∙ sym same)))

  -- A type is among the effective types of a named group in a region exactly when that group is
  -- the one that serves it there. The keys of the map are distinct.
  pub effective_iff_key :
      (m : Groups P) (k region_id : String) (t : TaskQueueType)
      → HasUniqueKeys m
      → k ≢ ""
      → (contains_type (effective_task_types_for_group m k region_id) t ≡ true)
        ↔ (scaling_group_key_for_task_queue_type m t region_id ≡ k)
  effective_iff_key m k region_id t u named =
      (effective-key m k region_id t, key-effective m k region_id t u named)

  -- In a specification that passes Validate, the group that serves a type in a region does not
  -- depend on the order in which the loop visits the map.
  pub validate-key_of_SameEntries :
      (m m' : Groups P) (t : TaskQueueType) (region_id : String)
      → validate (some m) ≡ ok tt
      → SameEntries t region_id m m'
      → scaling_group_key_for_task_queue_type m t region_id
        ≡ scaling_group_key_for_task_queue_type m' t region_id
  validate-key_of_SameEntries m m' t region_id h s =
      key_of_SameEntries t region_id m m' (validate-HasUniqueClaims m h t region_id) s
