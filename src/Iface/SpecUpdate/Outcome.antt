-- ===== src/Iface/SpecUpdate/Outcome.antt =====
-- spec_update.go: what an update makes of each group.
use temporal_auto_scaled_wor.Prelude.{
  if◌then◌else◌, Bool, true, false, String, str_eq, eq_iff, Option, none, some, List, [], ◌∷◌, ◌≡◌,
  refl, sym, ap, subst, ◌∙◌, inl, inr, any, is_empty, Map, lookup, insert, delete, lookup-insert,
  lookup-delete, Result, ok, >>=-eq-ok, arith, Bool-cases,
}
use temporal_auto_scaled_wor.Iface.Types.{
  ScalingGroupSpec, ScalingGroupSpecUpdate, Groups, UpdateRequest,
}
use temporal_auto_scaled_wor.Iface.Spec.{contains, clone}
use temporal_auto_scaled_wor.Iface.SpecUpdate.{
  MaskError, apply_field_mask, without, keys, current_groups, update_or_zero, upsert_into, upsert,
  upsert_all, remove_all, build_updated_spec, changes_provider,
}
use temporal_auto_scaled_wor.Iface.SpecUpdate.Skipping.{remove_all-other, clone_all_lem}

abbrev pub is_some {ℓ} : {A : Type ℓ} → Option A → Bool
is_some none = false
is_some (some a) = true

-- No text twice.
abbrev pub IsDistinct : List String → Type 0
IsDistinct [] = Unit {0}
IsDistinct (x ∷ xs) = (contains xs x ≡ false) × IsDistinct xs

-- What the SDK documents of `workflow.DeterministicKeys`: the keys, in some order.
pub record IsKeyOrder (order : List String → List String) : Type 0 where
  pub same_keys : (ks : List String) (k : String) → contains (order ks) k ≡ contains ks k
  pub distinct : (ks : List String) → IsDistinct ks → IsDistinct (order ks)

module _ {P : Type 0} where
  -- One group after its upsert, if there is one for its name.
  abbrev pub upserted :
      Option (ScalingGroupSpec P) → ScalingGroupSpecUpdate P → Result MaskError (ScalingGroupSpec P)
  upserted none u = ok u.spec
  upserted (some g) u =
      if is_empty u.update_mask then ok g else apply_field_mask g u.spec u.update_mask

  -- The group of a name after an update: removed, as it was, new, or the current one with the
  -- fields of the mask taken over.
  abbrev pub IsOutcome :
      Bool
      → Option (ScalingGroupSpec P)
      → Option (ScalingGroupSpecUpdate P)
      → Option (ScalingGroupSpec P)
      → Type 0
  IsOutcome true before u after = after ≡ none
  IsOutcome false before none after = after ≡ before
  IsOutcome false before (some u) after =
      (g : ScalingGroupSpec P) × (upserted before u ≡ ok g) × (after ≡ some g)

  abbrev Writes :
      Option (ScalingGroupSpec P) → String → ScalingGroupSpecUpdate P → Groups P → Groups P → Type 0
  Writes o n u groups groups' =
      (g : ScalingGroupSpec P) × (upserted o u ≡ ok g)
      × (lookup n groups' ≡ some g)
      × ((name : String) → str_eq n name ≡ false → lookup name groups' ≡ lookup name groups)

  insert-Writes :
      (o : Option (ScalingGroupSpec P)) (n : String) (u : ScalingGroupSpecUpdate P)
      (groups groups' : Groups P) (g : ScalingGroupSpec P)
      → upserted o u ≡ ok g
      → insert n g groups ≡ groups'
      → Writes o n u groups groups'
  insert-Writes o n u groups groups' g h e = (
    g,
    h,
    rw (← e, lookup-insert n n g groups, (eq_iff n n).1 refl),
    λ name differ. rw (← e, lookup-insert n name g groups, differ),
  )

  upsert_into-Writes :
      (o : Option (ScalingGroupSpec P)) (n : String) (u : ScalingGroupSpecUpdate P)
      (groups : Groups P) (skip : List String) (next : Groups P × List String)
      → lookup n groups ≡ o
      → upsert_into o n u (groups, skip) ≡ ok next
      → Writes o n u groups next.0
  unfolding clone
  upsert_into-Writes none n u groups skip next e h =
      insert-Writes none n u groups next.0 u.spec refl (ground arith)
  upsert_into-Writes (some g) n u groups skip next e h =
      elim (Bool-cases (is_empty u.update_mask)) [
        | inl empty ↦
            let same : groups ≡ next.0 = ground arith in
            (g, rw empty, rw (← same) e, λ name differ. rw same)
        | inr masked ↦
            let (dst, a, b) =
              >>=-eq-ok (apply_field_mask g u.spec u.update_mask) written_with (rw masked at h) in
            insert-Writes (some g) n u groups next.0 dst (rw masked a) (ground arith)
      ]
    where
      written_with : ScalingGroupSpec P → Result MaskError (Groups P × List String)
      written_with dst = ok (
        insert n dst groups,
        (if any changes_provider u.update_mask then without n skip else skip),
      )

  -- The loop over the upserts writes each name once.
  upsert_all-other :
      (upserts : Map (ScalingGroupSpecUpdate P)) (ns : List String)
      (start next : Groups P × List String) (name : String)
      → upsert_all upserts ns start ≡ ok next
      → contains ns name ≡ false
      → lookup name next.0 ≡ lookup name start.0
  unfolding upsert_all upsert
  upsert_all-other upserts [] start next name h c = ground arith
  upsert_all-other upserts (n ∷ ns) (groups, skip) next name h c =
      let (mid, a, b) = >>=-eq-ok (upsert upserts n (groups, skip)) (upsert_all upserts ns) h in
      upsert_all-other upserts ns mid next name b (ground arith)
      ∙ (upsert_into-Writes (lookup n groups) n (update_or_zero (lookup n upserts)) groups skip mid
            refl a).3
          name (ground arith)

  upsert_all_self :
      (upserts : Map (ScalingGroupSpecUpdate P)) (ns : List String)
      (start next : Groups P × List String) (name : String)
      → upsert_all upserts ns start ≡ ok next
      → IsDistinct ns
      → contains ns name ≡ true
      → (g : ScalingGroupSpec P) × (upserted
            (lookup name start.0)
            (update_or_zero (lookup name upserts))
          ≡ ok g)
        × (lookup name next.0 ≡ some g)
  unfolding upsert_all upsert
  upsert_all_self upserts [] start next name h d c = cc
  upsert_all_self upserts (n ∷ ns) (groups, skip) next name h d c =
      let (mid, a, b) = >>=-eq-ok (upsert upserts n (groups, skip)) (upsert_all upserts ns) h in
      let (g, made, here, others) =
        upsert_into-Writes (lookup n groups) n (update_or_zero (lookup n upserts)) groups skip mid
          refl a in
      elim (Bool-cases (str_eq n name)) [
        | inl same ↦
            rw (sym ((eq_iff n name).0 same))
              (g, made, upsert_all-other upserts ns mid next n b d.0 ∙ here)
        | inr differ ↦
            subst
              (λ o.
                (x : ScalingGroupSpec P) × (upserted o (update_or_zero (lookup name upserts))
                  ≡ ok x)
                × (lookup name next.0 ≡ some x))
              (others name differ) (upsert_all_self upserts ns mid next name b d.1 (ground arith))
      ]

  remove_all-removed :
      (ns : List String) (groups : Groups P) (name : String)
      → contains ns name ≡ true
      → lookup name (remove_all ns groups) ≡ none
  unfolding remove_all
  remove_all-removed [] groups name h = cc
  remove_all-removed (n ∷ ns) groups name h = elim (Bool-cases (contains ns name)) [
    | inl later ↦ remove_all-removed ns (delete n groups) name later
    | inr last ↦
        remove_all-other ns (delete n groups) name last
        ∙ ground (arith, lookup-delete n name groups)
  ]

  pub keys-lookup :
      (m : Map (ScalingGroupSpecUpdate P)) (name : String) (o : Option (ScalingGroupSpecUpdate P))
      → lookup name m ≡ o
      → contains (keys m) name ≡ is_some o
  unfolding lookup
  keys-lookup [] name none h = refl
  keys-lookup [] name (some u) h = cc
  keys-lookup ((k, v) ∷ m) name none h = ground (arith, keys-lookup m name none)
  keys-lookup ((k, v) ∷ m) name (some u) h = ground (arith, keys-lookup m name (some u))

  -- Before the removals.
  upserts-IsOutcome :
      (upserts : Map (ScalingGroupSpecUpdate P)) (ns : List String)
      (start next : Groups P × List String) (name : String) (o : Option (ScalingGroupSpecUpdate P))
      → upsert_all upserts ns start ≡ ok next
      → IsDistinct ns
      → lookup name upserts ≡ o
      → contains ns name ≡ is_some o
      → IsOutcome false (lookup name start.0) o (lookup name next.0)
  upserts-IsOutcome upserts ns start next name none h d e c =
      upsert_all-other upserts ns start next name h c
  upserts-IsOutcome upserts ns start next name (some u) h d e c =
      let (g, made, after) = upsert_all_self upserts ns start next name h d c in
      (g, subst (λ x. upserted (lookup name start.0) (update_or_zero x) ≡ ok g) e made, after)

  removals-IsOutcome :
      (removed : Bool) (before mid after : Option (ScalingGroupSpec P))
      (o : Option (ScalingGroupSpecUpdate P))
      → IsOutcome false before o mid
      → (removed ≡ true → after ≡ none)
      → (removed ≡ false → after ≡ mid)
      → IsOutcome removed before o after
  removals-IsOutcome true before mid after o h r k = r refl
  removals-IsOutcome false before mid after none h r k = k refl ∙ h
  removals-IsOutcome false before mid after (some u) h r k = (h.0, h.1, k refl ∙ h.2)

  -- The outcome of an update for every name: no group where it is removed; else the group as it
  -- was where there is no upsert; else the upsert's group where it is new, and the current group
  -- with the mask's fields taken over where it is not. The keys of the upserts are distinct, as
  -- those of a map are, and the SDK orders them.
  pub build_updated_spec-IsOutcome :
      (order : List String → List String) (current : Option (Groups P)) (args : UpdateRequest P)
      (groups : Groups P) (skip : List String) (name : String)
      → IsKeyOrder order
      → IsDistinct (keys args.upsert_scaling_groups)
      → build_updated_spec order current args ≡ ok (groups, skip)
      → IsOutcome
          (contains args.remove_scaling_groups name)
          (lookup name (current_groups current))
          (lookup name args.upsert_scaling_groups)
          (lookup name groups)
  unfolding build_updated_spec
  build_updated_spec-IsOutcome order current args groups skip name keys_order d h =
      let ups = args.upsert_scaling_groups in
      let (next, a, b) = >>=-eq-ok _ finish h in
      let written : remove_all args.remove_scaling_groups next.0 ≡ groups = ground arith in
      let updated =
        upserts-IsOutcome ups (order (keys ups)) _ next name (lookup name ups) a
          (keys_order.distinct (keys ups) d) refl
          (keys_order.same_keys (keys ups) name ∙ keys-lookup ups name (lookup name ups) refl) in
      removals-IsOutcome (contains args.remove_scaling_groups name)
        (lookup name (current_groups current)) (lookup name next.0) (lookup name groups)
        (lookup name ups)
        (subst (λ m. IsOutcome false (lookup name m) (lookup name ups) (lookup name next.0))
          (clone_all_lem (current_groups current)) updated)
        (λ r.
          ap (lookup name) (sym written)
          ∙ remove_all-removed args.remove_scaling_groups next.0 name r)
        (λ r.
          ap (lookup name) (sym written)
          ∙ remove_all-other args.remove_scaling_groups next.0 name r)
    where
      finish : Groups P × List String → Result MaskError (Groups P × List String)
      finish progress = ok (remove_all args.remove_scaling_groups progress.0, progress.1)
