-- ===== src/Prelude/Results.antt =====
-- A value or an error: Go's `(T, error)`, of which the code returns one or the other.
use mathlib.Core.Path.{◌≡◌, refl}
use mathlib.Core.Logic.{◌⊎◌, inl, inr}

pub data Result {ℓ κ} (Failure : Type κ) (Value : Type ℓ) : Type (ℓ ⊔ κ) where
  err : Failure → Result Failure Value
  ok : Value → Result Failure Value

-- The next step of a chain, after `if err != nil { return err }`.
infixl 5 ◌>>=◌
abbrev pub ◌>>=◌ {κ ℓ μ} :
    {Failure : Type κ} {Value : Type ℓ} {Next : Type μ}
    → Result Failure Value
    → (Value → Result Failure Next)
    → Result Failure Next
err failure >>= next = err failure
ok value >>= next = next value

-- Inversion of a chain that succeeds.
pub >>=-eq-ok {κ ℓ μ} :
    {Failure : Type κ} {Value : Type ℓ} {Next : Type μ} (first : Result Failure Value)
    (next : Value → Result Failure Next) {last : Next}
    → (first >>= next) ≡ ok last
    → (value : Value) × (first ≡ ok value) × (next value ≡ ok last)
>>=-eq-ok (err failure) next done = cc
>>=-eq-ok (ok value) next done = (value, refl, done)

pub Result-cases {κ ℓ} :
    {Failure : Type κ} {Value : Type ℓ} (r : Result Failure Value)
    → ((value : Value) × (r ≡ ok value)) ⊎ ((failure : Failure) × (r ≡ err failure))
Result-cases (err failure) = inr (failure, refl)
Result-cases (ok value) = inl (value, refl)
