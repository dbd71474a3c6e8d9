-- ===== src/Prelude/Lists.antt =====
-- Lists measured by native numbers, and the Boolean searches over them that the code makes with
-- `slices.Contains` and `slices.ContainsFunc`.
use Prim.Native.Nat.{ℕ, suc, ◌+◌}
use mathlib.Core.Path.{◌≡◌, refl}
use mathlib.Core.Option.{Option, none, some}
use mathlib.Core.List.{List, [], ◌∷◌, ◌++◌}
use mathlib.Core.Bool.{Bool, true, false, ◌&&◌, ◌||◌}
use native.Mathlib.Omega.{arith}
use temporal_auto_scaled_wor.Prelude.Tests.{if◌then◌else◌}

module _ {ℓ} {A : Type ℓ} where
  abbrev pub length : List A → ℕ
  length [] = 0
  length (x ∷ xs) = suc (length xs)

  pub length-append : (xs ys : List A) → length (xs ++ ys) ≡ length xs + length ys
  length-append [] ys = omega arith
  length-append (x ∷ xs) ys = omega (arith, length-append xs ys)

  abbrev pub is_empty : List A → Bool
  is_empty [] = true
  is_empty (x ∷ xs) = false

  abbrev pub any : (A → Bool) → List A → Bool
  any p [] = false
  any p (x ∷ xs) = p x || any p xs

  abbrev pub all : (A → Bool) → List A → Bool
  all p [] = true
  all p (x ∷ xs) = p x && all p xs

  abbrev pub keep_if : (A → Bool) → List A → List A
  keep_if p [] = []
  keep_if p (x ∷ xs) = let rest = keep_if p xs in if p x then x ∷ rest else rest

  -- A predicate of every element, as a tuple.
  abbrev pub All {κ} : (A → Type κ) → List A → Type κ
  All P [] = Unit
  All P (x ∷ xs) = P x × All P xs

  -- The first of several optional errors.
  abbrev pub first_some : List (Option A) → Option A
  first_some [] = none
  first_some (none ∷ os) = first_some os
  first_some (some a ∷ os) = some a

module _ {ℓ} {A : Type ℓ} where
  pub first_some-none : (os : List (Option A)) → first_some os ≡ none → All (λ o. o ≡ none) os
  first_some-none [] h = tt
  first_some-none (none ∷ os) h = (refl, first_some-none os h)
  first_some-none (some a ∷ os) h = cc

module _ {ℓ κ} {A : Type ℓ} where
  pub All-append : (Q : A → Type κ) (xs ys : List A) → All Q xs → All Q ys → All Q (xs ++ ys)
  All-append Q [] ys hx hy = hy
  All-append Q (x ∷ xs) ys hx hy = (hx.0, All-append Q xs ys hx.1 hy)
