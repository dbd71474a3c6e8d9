-- ===== src/Iface/SpecUpdate/Skipping.antt =====
-- spec_update.go: the groups whose provider validation an update skips.
use temporal_auto_scaled_wor.Prelude.{
  if◌then◌else◌, Bool, true, false, not, ◌&&◌, String, str_eq, eq_iff, Option, none, some, List, [],
  ◌∷◌, ◌≡◌, refl, sym, ap, subst, ◌∙◌, inl, inr, any, keep_if, is_empty, Map, lookup, insert,
  delete, lookup-insert, lookup-delete, Result, ok, >>=-eq-ok, arith, Bool-cases, false≢true,
}
use temporal_auto_scaled_wor.Iface.Types.{
  ScalingGroupSpec, ScalingGroupSpecUpdate, Groups, UpdateRequest,
}
use temporal_auto_scaled_wor.Iface.Spec.{contains, clone}
use temporal_auto_scaled_wor.Iface.SpecUpdate.{
  MaskError, apply_path, apply_field_mask, changes_provider, without, keys, clone_all,
  current_groups, update_or_zero, upsert_into, upsert, upsert_all, remove_all, build_updated_spec,
}

module _ {P : Type 0} where
  -- What the provider's validation reads of a group is unchanged.
  abbrev pub HasSameProvider : ScalingGroupSpec P → ScalingGroupSpec P → Type 0
  HasSameProvider g h =
      (h.compute.provider_type ≡ g.compute.provider_type) × (h.compute.config ≡ g.compute.config)

provider_path :
    (path literal : String)
    → changes_provider literal ≡ true
    → changes_provider path ≡ false
    → str_eq path literal ≡ false
provider_path path literal h c = elim (Bool-cases (str_eq path literal)) [
  | inl e ↦ absurd (false≢true (sym c ∙ ap changes_provider ((eq_iff path literal).0 e) ∙ h))
  | inr e ↦ e
]

-- A name that is left after a removal was there before, and is not the removed one.
contains-without :
    (name other : String) (ns : List String)
    → contains (without name ns) other ≡ true
    → (contains ns other ≡ true) × (str_eq other name ≡ false)
contains-without name other [] h = cc
contains-without name other (n ∷ ns) h =
    ground (arith, contains-without name other ns, eq_iff n other, eq_iff n name, eq_iff other name)

contains-keep_if :
    (p : String → Bool) (name : String) (ns : List String)
    → contains (keep_if p ns) name ≡ true
    → (contains ns name ≡ true) × (p name ≡ true)
contains-keep_if p name [] h = cc
contains-keep_if p name (n ∷ ns) h = elim (Bool-cases (str_eq n name)) [
  | inl e ↦ rw (sym ((eq_iff n name).0 e)) (
      ground (
        arith,
        (eq_iff n n).1 refl,
        contains-keep_if p n ns,
        ap (λ x. contains (keep_if p ns) x) ((eq_iff n name).0 e),
      ))
  | inr e ↦ ground (arith, contains-keep_if p name ns)
]

initial_names :
    (unchanged : Bool) (ns : List String) (name : String)
    → contains (if unchanged then [] else ns) name ≡ true
    → contains ns name ≡ true
initial_names true ns name h = cc
initial_names false ns name h = h

module _ {P : Type 0} where
  apply_path-provider :
      (dst src dst' : ScalingGroupSpec P) (path : String)
      → apply_path dst src path ≡ ok dst'
      → changes_provider path ≡ false
      → HasSameProvider dst dst'
  unfolding apply_path changes_provider
  apply_path-provider dst src dst' path h c = ground (
    arith,
    provider_path path "provider" refl c,
    provider_path path "provider.type" refl c,
    provider_path path "provider.details" refl c,
  )

  apply_field_mask-provider :
      (dst src dst' : ScalingGroupSpec P) (mask : List String)
      → apply_field_mask dst src mask ≡ ok dst'
      → any changes_provider mask ≡ false
      → HasSameProvider dst dst'
  unfolding apply_field_mask
  apply_field_mask-provider dst src dst' [] h c = ground arith
  apply_field_mask-provider dst src dst' (path ∷ mask) h c =
      let (mid, a, b) =
        >>=-eq-ok (apply_path dst src path)
          (λ (d : ScalingGroupSpec P). apply_field_mask d src mask) h in
      ground (
        arith,
        apply_path-provider dst src mid path a,
        apply_field_mask-provider mid src dst' mask b,
      )

  -- A name whose provider validation is still skipped, and its group before.
  abbrev Keeps : String → Option (ScalingGroupSpec P) → Option (ScalingGroupSpec P) → Type 0
  Keeps name none h = Unit {0}
  Keeps name (some g) none = ⊥
  Keeps name (some g) (some h) = HasSameProvider g h

  Keeps-refl : (name : String) (o : Option (ScalingGroupSpec P)) → Keeps name o o
  Keeps-refl name none = tt
  Keeps-refl name (some g) = (refl, refl)

  Keeps-trans :
      (name : String) (o p q : Option (ScalingGroupSpec P))
      → Keeps name o p
      → Keeps name p q
      → Keeps name o q
  Keeps-trans name none p q a b = tt
  Keeps-trans name (some g) none q a b = absurd a
  Keeps-trans name (some g) (some h) none a b = absurd b
  Keeps-trans name (some g) (some h) (some k) a b = (b.0 ∙ a.0, b.1 ∙ a.1)

  -- Writing one name keeps the others.
  insert-Keeps :
      (n name : String) (dst : ScalingGroupSpec P) (groups : Groups P)
      → (str_eq n name ≡ true → Keeps name (lookup n groups) (some dst))
      → Keeps name (lookup name groups) (lookup name (insert n dst groups))
  insert-Keeps n name dst groups h = elim (Bool-cases (str_eq n name)) [
    | inl e ↦
        rw (lookup-insert n name dst groups, e)
          (subst (λ x. Keeps name (lookup x groups) (some dst)) ((eq_iff n name).0 e) (h e))
    | inr e ↦ rw (lookup-insert n name dst groups, e) (Keeps-refl name (lookup name groups))
  ]

  ok_pair :
      {a b : Groups P} {s t : List String}
      → ◌≡◌ {A = Result MaskError (Groups P × List String)} (ok (a, s)) (ok (b, t))
      → (a ≡ b) × (s ≡ t)
  ok_pair h = ground arith

  -- A masked write, by whether the mask touches the provider.
  masked-Keeps :
      (changed : Bool) (g dst : ScalingGroupSpec P) (n : String) (u : ScalingGroupSpecUpdate P)
      (groups groups' : Groups P) (skip skip' : List String) (name : String)
      → lookup n groups ≡ some g
      → apply_field_mask g u.spec u.update_mask ≡ ok dst
      → any changes_provider u.update_mask ≡ changed
      → insert n dst groups ≡ groups'
      → (if changed then without n skip else skip) ≡ skip'
      → contains skip' name ≡ true
      → (contains skip name ≡ true) × Keeps name (lookup name groups) (lookup name groups')
  masked-Keeps true g dst n u groups groups' skip skip' name e a k written kept c =
      let left = contains-without n name skip (subst (λ s. contains s name ≡ true) (sym kept) c) in
      (
        left.0,
        rw (← written) (
            insert-Keeps n name dst groups (λ same.
              absurd (false≢true (sym left.1 ∙ (eq_iff name n).1 (sym ((eq_iff n name).0 same)))))),
      )
  masked-Keeps false g dst n u groups groups' skip skip' name e a k written kept c = (
    subst (λ s. contains s name ≡ true) (sym kept) c,
    rw (← written) (
        insert-Keeps n name dst groups
          (λ same. rw e (apply_field_mask-provider g u.spec dst u.update_mask a k))),
  )

  upsert_into-Keeps :
      (o : Option (ScalingGroupSpec P)) (n : String) (u : ScalingGroupSpecUpdate P)
      (groups groups' : Groups P) (skip skip' : List String) (name : String)
      → lookup n groups ≡ o
      → upsert_into o n u (groups, skip) ≡ ok (groups', skip')
      → contains skip' name ≡ true
      → (contains skip name ≡ true) × Keeps name (lookup name groups) (lookup name groups')
  upsert_into-Keeps none n u groups groups' skip skip' name e h c =
      let (written, kept) = ok_pair h in
      rw (← written, kept) (c, insert-Keeps n name (clone u.spec) groups (λ _. rw e tt))
  upsert_into-Keeps (some g) n u groups groups' skip skip' name e h c =
      elim (Bool-cases (is_empty u.update_mask)) [
        | inl empty ↦
            let (written, kept) = ok_pair (rw empty at h) in
            rw (← written, kept) (c, Keeps-refl name (lookup name groups))
        | inr masked ↦
            let (dst, a, b) =
              >>=-eq-ok (apply_field_mask g u.spec u.update_mask) written_with (rw masked at h) in
            let (written, kept) = ok_pair b in
            masked-Keeps (any changes_provider u.update_mask) g dst n u groups groups' skip skip'
              name e a refl written kept c
      ]
    where
      written_with : ScalingGroupSpec P → Result MaskError (Groups P × List String)
      written_with dst = ok (
        insert n dst groups,
        (if any changes_provider u.update_mask then without n skip else skip),
      )

  upsert_all-Keeps :
      (upserts : Map (ScalingGroupSpecUpdate P)) (ns : List String) (groups groups' : Groups P)
      (skip skip' : List String) (name : String)
      → upsert_all upserts ns (groups, skip) ≡ ok (groups', skip')
      → contains skip' name ≡ true
      → (contains skip name ≡ true) × Keeps name (lookup name groups) (lookup name groups')
  unfolding upsert_all upsert
  upsert_all-Keeps upserts [] groups groups' skip skip' name h c =
      let (written, kept) = ok_pair h in
      rw (← written, kept) (c, Keeps-refl name (lookup name groups))
  upsert_all-Keeps upserts (n ∷ ns) groups groups' skip skip' name h c =
      let ((mid, left), a, b) =
        >>=-eq-ok (upsert upserts n (groups, skip)) (upsert_all upserts ns) h in
      let later = upsert_all-Keeps upserts ns mid groups' left skip' name b c in
      let now =
        upsert_into-Keeps (lookup n groups) n (update_or_zero (lookup n upserts)) groups mid skip
          left name refl a later.0 in
      (
        now.0,
        Keeps-trans name (lookup name groups) (lookup name mid) (lookup name groups') now.1 later.1,
      )

  pub remove_all-other :
      (ns : List String) (groups : Groups P) (name : String)
      → contains ns name ≡ false
      → lookup name (remove_all ns groups) ≡ lookup name groups
  unfolding remove_all
  remove_all-other [] groups name h = refl
  remove_all-other (n ∷ ns) groups name h =
      ground (arith, remove_all-other ns (delete n groups) name, lookup-delete n name groups)

  pub clone_all_lem : (m : Groups P) → clone_all m ≡ m
  unfolding clone_all clone
  clone_all_lem [] = refl
  clone_all_lem ((k, g) ∷ m) = ap (◌∷◌ (k, g)) (clone_all_lem m)

  entry_of_key :
      (m : Groups P) (name : String)
      → contains (keys m) name ≡ true
      → (g : ScalingGroupSpec P) × (lookup name m ≡ some g)
  unfolding lookup
  entry_of_key [] name h = cc
  entry_of_key ((k, g) ∷ m) name h = elim (Bool-cases (str_eq k name)) [
    | inl e ↦ (g, rw e)
    | inr e ↦ rw e (entry_of_key m name (ground arith))
  ]

  Keeps-entry :
      (name : String) (g : ScalingGroupSpec P) (o : Option (ScalingGroupSpec P))
      → Keeps name (some g) o
      → (h : ScalingGroupSpec P) × (o ≡ some h) × HasSameProvider g h
  Keeps-entry name g none k = absurd k
  Keeps-entry name g (some h) k = (h, refl, k)

  -- Validation of the compute provider is skipped only for a group that exists before and after an
  -- update, with the same provider type and configuration; the SDK's order of keys adds no key.
  pub build_updated_spec-skip_safe :
      (order : List String → List String) (current : Option (Groups P)) (args : UpdateRequest P)
      (groups : Groups P) (skip : List String) (name : String)
      → ((ks : List String) → contains (order ks) name ≡ true → contains ks name ≡ true)
      → build_updated_spec order current args ≡ ok (groups, skip)
      → contains skip name ≡ true
      → (g h : ScalingGroupSpec P) × (lookup name (current_groups current) ≡ some g)
        × (lookup name groups ≡ some h)
        × HasSameProvider g h
  unfolding build_updated_spec
  build_updated_spec-skip_safe order current args groups skip name known h c =
      let before = clone_all (current_groups current) in
      let ((mid, left), a, b) = >>=-eq-ok _ finish h in
      let (written, kept) = ok_pair b in
      let keeps =
        upsert_all-Keeps args.upsert_scaling_groups _ before mid _ left name a
          (subst (λ s. contains s name ≡ true) (sym kept) c) in
      let first =
        contains-keep_if (λ n. not (contains args.remove_scaling_groups n)) name
          (order (keys before))
          (initial_names
            (is_empty args.upsert_scaling_groups && is_empty args.remove_scaling_groups) _ name
            keeps.0) in
      let (g, found) = entry_of_key before name (known (keys before) first.0) in
      let (h', after, same) =
        Keeps-entry name g (lookup name mid)
          (subst (λ o. Keeps name o (lookup name mid)) found keeps.1) in
      (
        g,
        h',
        ap (lookup name) (sym (clone_all_lem (current_groups current))) ∙ found,
        ap (lookup name) (sym written)
            ∙ remove_all-other args.remove_scaling_groups mid name (ground arith)
            ∙ after,
        same,
      )
    where
      finish : Groups P × List String → Result MaskError (Groups P × List String)
      finish progress = ok (remove_all args.remove_scaling_groups progress.0, progress.1)
