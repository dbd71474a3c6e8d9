-- ===== src/Iface/Spec/Regions.antt =====
-- spec.go: the regions that groups list, and what Validate checks of them.
use mathlib.Core.List.{Memᴰ}
use temporal_auto_scaled_wor.Prelude.{
  String, str_eq, eq_iff, true, some, List, [], ◌∷◌, ◌++◌, ◌≡◌, refl, sym, ap, ◌∙◌, inl, inr, arith,
  if◌then◌else◌, ok, Bool-cases,
}
use temporal_auto_scaled_wor.Iface.Types.{TaskQueueType, type_eq_sound, ScalingGroupSpec, Groups}
use temporal_auto_scaled_wor.Iface.Spec.{
  contains, types_equal, add_regions, collect_regions, insert_sorted, sort, listed_region_ids,
  check_regions, check_regions_after, task_types_served_in_region, validate,
}
use temporal_auto_scaled_wor.Iface.Spec.Uniqueness.{validate_ok}

contains-append :
    (xs ys : List String) (r : String) → contains xs r ≡ true → contains (xs ++ ys) r ≡ true
contains-append [] ys r h = cc
contains-append (x ∷ xs) ys r h = ground (arith, contains-append xs ys r)

contains-append_last : (xs : List String) (r : String) → contains (xs ++ r ∷ []) r ≡ true
contains-append_last [] r = ground (arith, (eq_iff r r).1 refl)
contains-append_last (x ∷ xs) r = ground (arith, contains-append_last xs r)

add_regions-keeps :
    (rs seen : List String) (r : String)
    → contains seen r ≡ true
    → contains (add_regions rs seen) r ≡ true
unfolding add_regions
add_regions-keeps [] seen r h = h
add_regions-keeps (x ∷ rs) seen r h =
    add_regions-keeps rs (if contains seen x then seen else seen ++ x ∷ []) r
      (ground (arith, contains-append seen (x ∷ []) r))

add_regions-adds :
    (rs seen : List String) (r : String)
    → contains rs r ≡ true
    → contains (add_regions rs seen) r ≡ true
unfolding add_regions
add_regions-adds [] seen r h = cc
add_regions-adds (x ∷ rs) seen r h = elim (Bool-cases (str_eq x r)) [
  | inl same ↦ rw (sym ((eq_iff x r).0 same)) (
      add_regions-keeps rs (if contains seen x then seen else seen ++ x ∷ []) x
        (ground (arith, contains-append_last seen x)))
  | inr differ ↦
      add_regions-adds rs (if contains seen x then seen else seen ++ x ∷ []) r (ground arith)
]

insert_sorted-adds :
    (r a : String) (xs : List String) → str_eq a r ≡ true → contains (insert_sorted a xs) r ≡ true
unfolding insert_sorted
insert_sorted-adds r a [] h = ground arith
insert_sorted-adds r a (x ∷ xs) h = ground (arith, insert_sorted-adds r a xs)

insert_sorted-keeps :
    (r a : String) (xs : List String)
    → contains xs r ≡ true
    → contains (insert_sorted a xs) r ≡ true
unfolding insert_sorted
insert_sorted-keeps r a [] h = cc
insert_sorted-keeps r a (x ∷ xs) h = ground (arith, insert_sorted-keeps r a xs)

sort-contains : (xs : List String) (r : String) → contains xs r ≡ true → contains (sort xs) r ≡ true
unfolding sort
sort-contains [] r h = h
sort-contains (x ∷ xs) r h =
    ground (
      arith,
      insert_sorted-adds r x (sort xs),
      insert_sorted-keeps r x (sort xs),
      sort-contains xs r,
    )

types_equal_sound : (ts us : List TaskQueueType) → types_equal ts us ≡ true → ts ≡ us
types_equal_sound [] [] h = refl
types_equal_sound [] (u ∷ us) h = cc
types_equal_sound (t ∷ ts) [] h = cc
types_equal_sound (t ∷ ts) (u ∷ us) h = ground (arith, type_eq_sound t u, types_equal_sound ts us)

module _ {P : Type 0} where
  collect_regions-keeps :
      (m : Groups P) (seen : List String) (r : String)
      → contains seen r ≡ true
      → contains (collect_regions m seen) r ≡ true
  unfolding collect_regions
  collect_regions-keeps [] seen r h = h
  collect_regions-keeps ((k, g) ∷ m) seen r h =
      collect_regions-keeps m (add_regions g.region_ids seen) r
        (add_regions-keeps g.region_ids seen r h)

  collect_regions-adds :
      (m : Groups P) (seen : List String) (r : String) (e : String × ScalingGroupSpec P)
      → Memᴰ e m
      → contains e.1.region_ids r ≡ true
      → contains (collect_regions m seen) r ≡ true
  unfolding collect_regions
  collect_regions-adds [] seen r e i h = elim i [ ]
  collect_regions-adds ((k, g) ∷ m) seen r e (Memᴰ.head p) h =
      collect_regions-keeps m (add_regions g.region_ids seen) r
        (add_regions-adds g.region_ids seen r (ap (λ x. contains x.1.region_ids r) (sym p) ∙ h))
  collect_regions-adds ((k, g) ∷ m) seen r e (Memᴰ.tail i) h =
      collect_regions-adds m (add_regions g.region_ids seen) r e i h

  check_regions_after-equal :
      (m : Groups P) (first : String) (rs : List String) (r : String)
      → check_regions_after m first rs ≡ ok tt
      → contains rs r ≡ true
      → task_types_served_in_region m r ≡ task_types_served_in_region m first
  unfolding check_regions_after
  check_regions_after-equal m first [] r h c = cc
  check_regions_after-equal m first (x ∷ rs) r h c = elim (Bool-cases (str_eq x r)) [
    | inl same ↦ rw (sym ((eq_iff x r).0 same)) (
        types_equal_sound (task_types_served_in_region m x) (task_types_served_in_region m first)
          (ground arith))
    | inr differ ↦ check_regions_after-equal m first rs r (ground arith) (ground arith)
  ]

  check_regions-equal :
      (m : Groups P) (rs : List String) (r s : String)
      → check_regions m rs ≡ ok tt
      → contains rs r ≡ true
      → contains rs s ≡ true
      → task_types_served_in_region m r ≡ task_types_served_in_region m s
  unfolding check_regions
  check_regions-equal m [] r s h c d = cc
  check_regions-equal m (x ∷ rs) r s h c d = as_first r c ∙ sym (as_first s d)
    where
      as_first :
          (q : String)
          → contains (x ∷ rs) q ≡ true
          → task_types_served_in_region m q ≡ task_types_served_in_region m x
      as_first q e = elim (Bool-cases (str_eq x q)) [
        | inl same ↦ ap (task_types_served_in_region m) (sym ((eq_iff x q).0 same))
        | inr differ ↦ check_regions_after-equal m x rs q h (ground arith)
      ]

  -- In a specification that passes Validate, any two regions that groups list are served for the
  -- same task types, so a failover from one to the other leaves no type without a group.
  pub validate-equal_regions :
      (m : Groups P) (r s : String) (e f : String × ScalingGroupSpec P)
      → validate (some m) ≡ ok tt
      → Memᴰ e m
      → contains e.1.region_ids r ≡ true
      → Memᴰ f m
      → contains f.1.region_ids s ≡ true
      → task_types_served_in_region m r ≡ task_types_served_in_region m s
  unfolding listed_region_ids
  validate-equal_regions m r s e f h i a j b =
      check_regions-equal m (sort (collect_regions m [])) r s (validate_ok m h).3
        (sort-contains (collect_regions m []) r (collect_regions-adds m [] r e i a))
        (sort-contains (collect_regions m []) s (collect_regions-adds m [] s f j b))
