-- ===== src/Iface/Spec/Uniqueness.antt =====
-- spec.go: what the first loop of Validate establishes.
use mathlib.Core.List.{Memᴰ}
use temporal_auto_scaled_wor.Prelude.{
  zero, suc, ℤ, pos, negsuc, pos_part, ◌≤ℤ◌, leb_ℤ, ◌%◌, ◌==◌, String, str_eq, eq_iff, Bool, true,
  false, ◌&&◌, some, List, [], ◌∷◌, ◌++◌, ◌≡◌, refl, sym, ap, ◌∙◌, inl, inr, any, is_empty, arith,
  if◌then◌else◌, ok, err, ◌>>=◌, >>=-eq-ok, Bool-cases,
}
use temporal_auto_scaled_wor.Iface.Types.{
  TaskQueueType, type_eq, type_eq_sound, ScalingGroupSpec, Groups,
}
use temporal_auto_scaled_wor.Iface.Spec.{
  Seen, contains, contains_type, has_pair, pair_eq, pairs_with, or_no_region, add_catch_alls,
  add_task_types, check_group, check_groups, check_catch_alls, check_regions, no_seen,
  listed_region_ids, validate, claim_rank, Checked,
}
use temporal_auto_scaled_wor.Iface.Spec.Claims.{HasUniqueClaims}

any-append {ℓ} :
    {A : Type ℓ} (p : A → Bool) (xs ys : List A) → any p xs ≡ true → any p (xs ++ ys) ≡ true
any-append p [] ys h = cc
any-append p (x ∷ xs) ys h = ground (arith, any-append p xs ys)

any-append_right {ℓ} :
    {A : Type ℓ} (p : A → Bool) (xs ys : List A) → any p ys ≡ true → any p (xs ++ ys) ≡ true
any-append_right p [] ys h = h
any-append_right p (x ∷ xs) ys h = ground (arith, any-append_right p xs ys h)

has_pair-pairs_with :
    (t u : TaskQueueType) (rs : List String) (r : String)
    → contains rs r ≡ true
    → type_eq t u ≡ true
    → has_pair (pairs_with t rs) (r, u) ≡ true
has_pair-pairs_with t u [] r h e = cc
has_pair-pairs_with t u (x ∷ rs) r h e = ground (arith, has_pair-pairs_with t u rs r)

not_seen :
    (t : TaskQueueType) (seen : List (String × TaskQueueType)) (rs : List String) (r : String)
    → any (has_pair seen) (pairs_with t rs) ≡ false
    → contains rs r ≡ true
    → has_pair seen (r, t) ≡ false
not_seen t seen [] r h e = cc
not_seen t seen (x ∷ rs) r h e = elim (Bool-cases (str_eq x r)) [
  | inl same ↦ rw (sym ((eq_iff x r).0 same)) (ground arith)
  | inr differ ↦ not_seen t seen rs r (ground arith) (ground arith)
]

has_pair-append :
    (ps qs : List (String × TaskQueueType)) (p : String × TaskQueueType)
    → has_pair qs p ≡ true
    → has_pair (ps ++ qs) p ≡ true
has_pair-append ps qs p = any-append_right (λ q. pair_eq q p) ps qs

has_pair-append_left :
    (ps qs : List (String × TaskQueueType)) (p : String × TaskQueueType)
    → has_pair ps p ≡ true
    → has_pair (ps ++ qs) p ≡ true
has_pair-append_left ps qs p = any-append (λ q. pair_eq q p) ps qs

add_task_types_mono :
    (k : String) (rs : List String) (ts : List TaskQueueType)
    (seen seen' : List (String × TaskQueueType)) (p : String × TaskQueueType)
    → add_task_types k rs ts seen ≡ ok seen'
    → has_pair seen p ≡ true
    → has_pair seen' p ≡ true
unfolding add_task_types
add_task_types_mono k rs [] seen seen' p h e = ground arith
add_task_types_mono k rs (t ∷ ts) seen seen' p h e = ground (
  arith,
  add_task_types_mono k rs ts (pairs_with t rs ++ seen) seen' p,
  has_pair-append (pairs_with t rs) seen p,
)

add_task_types-adds :
    (k : String) (rs : List String) (ts : List TaskQueueType)
    (seen seen' : List (String × TaskQueueType)) (r : String) (t : TaskQueueType)
    → add_task_types k rs ts seen ≡ ok seen'
    → contains rs r ≡ true
    → contains_type ts t ≡ true
    → (has_pair seen (r, t) ≡ false) × (has_pair seen' (r, t) ≡ true)
unfolding add_task_types
add_task_types-adds k rs [] seen seen' r t h c d = cc
add_task_types-adds k rs (u ∷ ts) seen seen' r t h c d = elim (Bool-cases (type_eq u t)) [
  | inl same ↦ rw (sym (type_eq_sound u t same)) (
    not_seen u seen rs r (ground arith) c,
    add_task_types_mono k rs ts (pairs_with u rs ++ seen) seen' (r, u) (ground arith)
        (has_pair-append_left (pairs_with u rs) seen (r, u)
          (has_pair-pairs_with u u rs r c (ground arith))),
  )
  | inr differ ↦
      let later =
        add_task_types-adds k rs ts (pairs_with u rs ++ seen) seen' r t (ground arith) c
          (ground arith) in
      (ground (arith, later, has_pair-append (pairs_with u rs) seen (r, t)), later.1)
]

add_catch_alls_mono :
    (k : String) (rs seen seen' : List String) (p : String)
    → add_catch_alls k rs seen ≡ ok seen'
    → contains seen p ≡ true
    → contains seen' p ≡ true
unfolding add_catch_alls
add_catch_alls_mono k [] seen seen' p h e = ground arith
add_catch_alls_mono k (r ∷ rs) seen seen' p h e =
    ground (arith, add_catch_alls_mono k rs (r ∷ seen) seen' p)

add_catch_alls-adds :
    (k : String) (rs seen seen' : List String) (p : String)
    → add_catch_alls k rs seen ≡ ok seen'
    → contains rs p ≡ true
    → (contains seen p ≡ false) × (contains seen' p ≡ true)
unfolding add_catch_alls
add_catch_alls-adds k [] seen seen' p h c = cc
add_catch_alls-adds k (r ∷ rs) seen seen' p h c = elim (Bool-cases (str_eq r p)) [
  | inl same ↦ rw (sym ((eq_iff r p).0 same)) (
    ground arith,
    add_catch_alls_mono k rs (r ∷ seen) seen' r (ground arith)
        (ground (arith, (eq_iff r r).1 refl)),
  )
  | inr differ ↦ ground (arith, add_catch_alls-adds k rs (r ∷ seen) seen' p)
]

module _ {P : Type 0} where
  -- A group's claim on a type in a region: where it is entered, and whether among the listed types
  -- or among the catch-alls.
  claims : String → TaskQueueType → Bool → ScalingGroupSpec P → Bool
  claims place t listed g =
      contains (or_no_region g.region_ids) place
      && (if listed then contains_type g.task_types t else is_empty g.task_types)

-- Where a claim of a rank is entered, and in which of the two sets.
abbrev place_of : ℤ → String → String
place_of rank region_id = if leb_ℤ (pos 2) rank then region_id else ""

abbrev listed_of : ℤ → Bool
listed_of rank = pos_part rank % 2 == 1

all_ok :
    (a : Checked Seen) (b c : Checked (Unit {0}))
    → (a >>= λ _. b >>= λ _. c) ≡ ok tt
    → (seen : Seen) × (a ≡ ok seen) × (b ≡ ok tt) × (c ≡ ok tt)
all_ok (ok seen) (ok tt) c h = (seen, refl, refl, h)
all_ok (ok seen) (err x) c h = cc
all_ok (err x) b c h = cc

taken : String → TaskQueueType → Bool → Seen → Bool
taken place t listed seen =
    if listed then has_pair seen.types (place, t) else contains seen.catch_alls place

module _ {P : Type 0} where
  -- What a round that succeeds has done.
  abbrev CheckedGroup : String → ScalingGroupSpec P → Seen → Seen → Type 0
  CheckedGroup k g seen seen' =
      (add_task_types k (or_no_region g.region_ids) g.task_types seen.types ≡ ok seen'.types)
      × ((if is_empty g.task_types
            then add_catch_alls k (or_no_region g.region_ids) seen.catch_alls
            else ok seen.catch_alls)
          ≡ ok seen'.catch_alls)

  check_group_ok :
      (k : String) (g : ScalingGroupSpec P) (seen seen' : Seen)
      → check_group (k, g) seen ≡ ok seen'
      → CheckedGroup k g seen seen'
  unfolding check_group
  check_group_ok k g seen seen' h = ground arith

  check_group-takes :
      (place : String) (t : TaskQueueType) (listed : Bool) (k : String) (g : ScalingGroupSpec P)
      (seen seen' : Seen)
      → CheckedGroup k g seen seen'
      → claims place t listed g ≡ true
      → (taken place t listed seen ≡ false) × (taken place t listed seen' ≡ true)
  unfolding claims taken
  check_group-takes place t true k g seen seen' h c =
      add_task_types-adds k (or_no_region g.region_ids) g.task_types seen.types seen'.types place t
        h.0 (ground arith) (ground arith)
  check_group-takes place t false k g seen seen' h c =
      add_catch_alls-adds k (or_no_region g.region_ids) seen.catch_alls seen'.catch_alls place
        (ground arith) (ground arith)

  check_group-keeps :
      (place : String) (t : TaskQueueType) (listed : Bool) (k : String) (g : ScalingGroupSpec P)
      (seen seen' : Seen)
      → CheckedGroup k g seen seen'
      → taken place t listed seen ≡ true
      → taken place t listed seen' ≡ true
  unfolding taken
  check_group-keeps place t true k g seen seen' h c =
      add_task_types_mono k (or_no_region g.region_ids) g.task_types seen.types seen'.types
        (place, t) h.0 c
  check_group-keeps place t false k g seen seen' h c = elim (Bool-cases (is_empty g.task_types)) [
    | inl e ↦
        add_catch_alls_mono k (or_no_region g.region_ids) seen.catch_alls seen'.catch_alls place
          (ground arith) c
    | inr e ↦ ground arith
  ]

  check_groups-fresh :
      (place : String) (t : TaskQueueType) (listed : Bool) (m : Groups P) (seen seen' : Seen)
      (e : String × ScalingGroupSpec P)
      → check_groups m seen ≡ ok seen'
      → Memᴰ e m
      → claims place t listed e.1 ≡ true
      → taken place t listed seen ≡ false
  unfolding check_groups
  check_groups-fresh place t listed [] seen seen' e h i c = elim i [ ]
  check_groups-fresh place t listed ((k, g) ∷ m) seen seen' e h (Memᴰ.head p) c =
      let (mid, a, b) = >>=-eq-ok (check_group (k, g) seen) (check_groups m) h in
      (check_group-takes place t listed k g seen mid (check_group_ok k g seen mid a)
        (ap (λ x. claims place t listed x.1) (sym p) ∙ c)).0
  check_groups-fresh place t listed ((k, g) ∷ m) seen seen' e h (Memᴰ.tail i) c =
      let (mid, a, b) = >>=-eq-ok (check_group (k, g) seen) (check_groups m) h in
      let free = check_groups-fresh place t listed m mid seen' e b i c in
      ground
        (arith, free, check_group-keeps place t listed k g seen mid (check_group_ok k g seen mid a))

  -- Two groups with one claim are one group.
  check_groups_unique :
      (place : String) (t : TaskQueueType) (listed : Bool) (m : Groups P) (seen seen' : Seen)
      (e f : String × ScalingGroupSpec P)
      → check_groups m seen ≡ ok seen'
      → Memᴰ e m
      → Memᴰ f m
      → claims place t listed e.1 ≡ true
      → claims place t listed f.1 ≡ true
      → e.0 ≡ f.0
  unfolding check_groups
  check_groups_unique place t listed [] seen seen' e f h i j c d = elim i [ ]
  check_groups_unique place t listed ((k, g) ∷ m) seen seen' e f h (Memᴰ.head p) (Memᴰ.head q) c d =
      ap (λ x. x.0) (p ∙ sym q)
  check_groups_unique place t listed ((k, g) ∷ m) seen seen' e f h (Memᴰ.head p) (Memᴰ.tail j) c d =
      let (mid, a, b) = >>=-eq-ok (check_group (k, g) seen) (check_groups m) h in
      let full =
        (check_group-takes place t listed k g seen mid (check_group_ok k g seen mid a)
          (ap (λ x. claims place t listed x.1) (sym p) ∙ c)).1 in
      let free = check_groups-fresh place t listed m mid seen' f b j d in cc
  check_groups_unique place t listed ((k, g) ∷ m) seen seen' e f h (Memᴰ.tail i) (Memᴰ.head q) c d =
      let (mid, a, b) = >>=-eq-ok (check_group (k, g) seen) (check_groups m) h in
      let full =
        (check_group-takes place t listed k g seen mid (check_group_ok k g seen mid a)
          (ap (λ x. claims place t listed x.1) (sym q) ∙ d)).1 in
      let free = check_groups-fresh place t listed m mid seen' e b i c in cc
  check_groups_unique place t listed ((k, g) ∷ m) seen seen' e f h (Memᴰ.tail i) (Memᴰ.tail j) c d =
      let (mid, a, b) = >>=-eq-ok (check_group (k, g) seen) (check_groups m) h in
      check_groups_unique place t listed m mid seen' e f b i j c d

  claim_rank-claims :
      (g : ScalingGroupSpec P) (t : TaskQueueType) (region_id : String) (rank : ℤ)
      → claim_rank g t region_id ≡ rank
      → pos 0 ≤ℤ rank
      → claims (place_of rank region_id) t (listed_of rank) g ≡ true
  unfolding claim_rank claims
  claim_rank-claims g t region_id (negsuc n) e h = absurd (omega arith)
  claim_rank-claims g t region_id (pos zero) e h = ground arith
  claim_rank-claims g t region_id (pos (suc zero)) e h = ground arith
  claim_rank-claims g t region_id (pos (suc (suc zero))) e h = ground arith
  claim_rank-claims g t region_id (pos (suc (suc (suc zero)))) e h = ground arith
  claim_rank-claims g t region_id (pos (suc (suc (suc (suc n))))) e h = ground arith

  -- What Validate has checked when it passes.
  pub validate_ok :
      (m : Groups P)
      → validate (some m) ≡ ok tt
      → (seen : Seen) × (check_groups m no_seen ≡ ok seen)
        × (check_catch_alls m m ≡ ok tt)
        × (check_regions m (listed_region_ids m) ≡ ok tt)
  unfolding validate
  validate_ok m h = elim (Bool-cases (is_empty m)) [
    | inl e ↦ ground arith
    | inr e ↦
        all_ok (check_groups m no_seen) (check_catch_alls m m)
          (check_regions m (listed_region_ids m)) (ground arith)
  ]

  -- A specification that passes Validate has at most one group for each rank of claim, for every
  -- type and region.
  pub validate-HasUniqueClaims :
      (m : Groups P)
      → validate (some m) ≡ ok tt
      → (t : TaskQueueType) (region_id : String) → HasUniqueClaims t region_id m
  validate-HasUniqueClaims m h t region_id e f i j same bound =
      let (seen, a, b, c) = validate_ok m h in
      check_groups_unique (place_of (claim_rank e.1 t region_id) region_id) t
        (listed_of (claim_rank e.1 t region_id)) m no_seen seen e f a i j
        (claim_rank-claims e.1 t region_id _ refl bound)
        (claim_rank-claims f.1 t region_id _ (sym same) bound)
