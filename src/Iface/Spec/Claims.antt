-- ===== src/Iface/Spec/Claims.antt =====
-- spec.go: the group that serves a task type in a region, as the best claim.
use mathlib.Core.List.{Memᴰ}
use temporal_auto_scaled_wor.Prelude.{
  ℤ, pos, negsuc, pos_part, neg_part, ◌≤ℤ◌, ◌<ℤ◌, ltb_ℤ, eq_of_parts, String, true, false, [], ◌∷◌,
  ◌≡◌, refl, sym, ap, ◌∙◌, ◌⊎◌, inl, inr, Bool-cases, arith,
}
use temporal_auto_scaled_wor.Iface.Types.{TaskQueueType, ScalingGroupSpec, Groups}
use temporal_auto_scaled_wor.Iface.Spec.{
  claim_rank, claimed_group, scaling_group_key_for_task_queue_type,
}

module _ {P : Type 0} (t : TaskQueueType) (region_id : String) where
  -- The rank of an entry's claim, as far as the best so far.
  claimed_group_grows :
      (m : Groups P) (k : String) (n : ℤ) → n ≤ℤ (claimed_group t region_id m (k, n)).1
  unfolding claimed_group
  claimed_group_grows [] k n = omega arith
  claimed_group_grows ((j, g) ∷ m) k n =
      ground (arith, claimed_group_grows m k n, claimed_group_grows m j (claim_rank g t region_id))

  -- No entry ranks above the result.
  claimed_group_max :
      (m : Groups P) (k : String) (n : ℤ) (e : String × ScalingGroupSpec P)
      → Memᴰ e m
      → claim_rank e.1 t region_id ≤ℤ (claimed_group t region_id m (k, n)).1
  unfolding claimed_group
  claimed_group_max [] k n e h = elim h [ ]
  claimed_group_max ((j, g) ∷ m) k n e (Memᴰ.head p) = rw p (
      ground (arith, claimed_group_grows m k n, claimed_group_grows m j (claim_rank g t region_id)))
  claimed_group_max ((j, g) ∷ m) k n e (Memᴰ.tail h) =
      ground
        (arith, claimed_group_max m k n e h, claimed_group_max m j (claim_rank g t region_id) e h)

  -- An entry that made the result.
  abbrev pub IsClaim : Groups P → ℤ → String × ℤ → Type 0
  IsClaim m n best =
      (e : String × ScalingGroupSpec P) × Memᴰ e m
      × (n <ℤ best.1)
      × (best ≡ (e.0, claim_rank e.1 t region_id))

  IsClaim-tail :
      (m : Groups P) (j : String × ScalingGroupSpec P) (n n' : ℤ) (best : String × ℤ)
      → n' ≤ℤ n
      → IsClaim m n best
      → IsClaim (j ∷ m) n' best
  IsClaim-tail m j n n' best h (e, i, l, q) = (e, Memᴰ.tail i, omega arith, q)

  claimed_group_above :
      (m : Groups P) (j k : String) (g : ScalingGroupSpec P) (n : ℤ)
      → ltb_ℤ n (claim_rank g t region_id) ≡ true
      → claimed_group t region_id ((j, g) ∷ m) (k, n)
        ≡ claimed_group t region_id m (j, claim_rank g t region_id)
  unfolding claimed_group
  claimed_group_above m j k g n h = rw h

  claimed_group_below :
      (m : Groups P) (j k : String) (g : ScalingGroupSpec P) (n : ℤ)
      → ltb_ℤ n (claim_rank g t region_id) ≡ false
      → claimed_group t region_id ((j, g) ∷ m) (k, n) ≡ claimed_group t region_id m (k, n)
  unfolding claimed_group
  claimed_group_below m j k g n h = rw h

  -- The result is the start of the search, or an entry that ranks above it.
  pub claimed_group_source :
      (m : Groups P) (k : String) (n : ℤ)
      → (claimed_group t region_id m (k, n) ≡ (k, n))
        ⊎ IsClaim m n (claimed_group t region_id m (k, n))
  claimed_group_source [] k n = inl (unfold claimed_group in refl)
  claimed_group_source ((j, g) ∷ m) k n = elim (Bool-cases (ltb_ℤ n (claim_rank g t region_id))) [
    | inl above ↦
        rw (claimed_group_above m j k g n above)
          (elim (claimed_group_source m j (claim_rank g t region_id)) [
            | inl e ↦ inr ((j, g), Memᴰ.head refl, rw e (ground arith), e)
            | inr c ↦ inr (IsClaim-tail m (j, g) _ n _ (ground arith) c)
          ])
    | inr below ↦ rw (claimed_group_below m j k g n below) (elim (claimed_group_source m k n) [
      | inl e ↦ inl e
      | inr c ↦ inr (IsClaim-tail m (j, g) n n _ (omega arith) c)
    ])
  ]

  -- At most one group claims the type at each rank.
  abbrev pub HasUniqueClaims : Groups P → Type 0
  HasUniqueClaims m =
      (e f : String × ScalingGroupSpec P)
      → Memᴰ e m
      → Memᴰ f m
      → claim_rank e.1 t region_id ≡ claim_rank f.1 t region_id
      → pos 0 ≤ℤ claim_rank e.1 t region_id
      → e.0 ≡ f.0

  abbrev pub SameEntries : Groups P → Groups P → Type 0
  SameEntries m m' =
      ((e : String × ScalingGroupSpec P) → Memᴰ e m → Memᴰ e m')
      × ((e : String × ScalingGroupSpec P) → Memᴰ e m' → Memᴰ e m)

  -- The loop's two results over lists with the same entries.
  source_agrees :
      (m m' : Groups P)
      → HasUniqueClaims m
      → SameEntries m m'
      → ((claimed_group t region_id m ("", negsuc 0) ≡ ("", negsuc 0))
          ⊎ IsClaim m (negsuc 0) (claimed_group t region_id m ("", negsuc 0)))
      → ((claimed_group t region_id m' ("", negsuc 0) ≡ ("", negsuc 0))
          ⊎ IsClaim m' (negsuc 0) (claimed_group t region_id m' ("", negsuc 0)))
      → (claimed_group t region_id m ("", negsuc 0)).0
        ≡ (claimed_group t region_id m' ("", negsuc 0)).0
  source_agrees m m' u s (inl e) (inl f) = ap (λ p. p.0) (e ∙ sym f)
  source_agrees m m' u s (inl e) (inr (x, i, l, q)) = absurd (
      omega (
        arith,
        claimed_group_max m "" (negsuc 0) x (s.1 x i),
        ap (λ p. pos_part p.1) e,
        ap (λ p. neg_part p.1) e,
        ap (λ p. pos_part p.1) q,
        ap (λ p. neg_part p.1) q,
      ))
  source_agrees m m' u s (inr (x, i, l, q)) (inl f) = absurd (
      omega (
        arith,
        claimed_group_max m' "" (negsuc 0) x (s.0 x i),
        ap (λ p. pos_part p.1) f,
        ap (λ p. neg_part p.1) f,
        ap (λ p. pos_part p.1) q,
        ap (λ p. neg_part p.1) q,
      ))
  source_agrees m m' u s (inr (x, i, l, q)) (inr (y, j, k, r)) =
      ap (λ p. p.0) q
      ∙ u x y i (s.1 y j) same_rank
          (omega (arith, ap (λ p. pos_part p.1) q, ap (λ p. neg_part p.1) q))
      ∙ sym (ap (λ p. p.0) r)
    where
      same_rank : claim_rank x.1 t region_id ≡ claim_rank y.1 t region_id
      same_rank = eq_of_parts _ _ (
          omega (
            arith,
            claimed_group_max m "" (negsuc 0) y (s.1 y j),
            claimed_group_max m' "" (negsuc 0) x (s.0 x i),
            ap (λ p. pos_part p.1) q,
            ap (λ p. neg_part p.1) q,
            ap (λ p. pos_part p.1) r,
            ap (λ p. neg_part p.1) r,
          ))

  -- With unique claims, the group that serves a type in a region does not depend on the order in
  -- which the loop visits the map.
  pub key_of_SameEntries :
      (m m' : Groups P)
      → HasUniqueClaims m
      → SameEntries m m'
      → scaling_group_key_for_task_queue_type m t region_id
        ≡ scaling_group_key_for_task_queue_type m' t region_id
  unfolding scaling_group_key_for_task_queue_type
  key_of_SameEntries m m' u s =
      source_agrees m m' u s (claimed_group_source m "" (negsuc 0))
        (claimed_group_source m' "" (negsuc 0))
