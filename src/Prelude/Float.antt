-- ===== src/Prelude/Float.antt =====
-- Go's float64, which the checker lacks: the type and the operations that the code uses are a
-- parameter of the model. `FloatLaws` names the facts of IEEE 754 and of Go's conversions that a
-- theorem may ask for.
use Prim.Native.Nat.{ℕ, ◌≤◌}
use Prim.Native.String.{String}
use mathlib.Core.Path.{◌≡◌}
use mathlib.Core.Bool.{Bool, true, false}
use mathlib.Core.Option.{Option}
use temporal_auto_scaled_wor.Prelude.Int.{ℤ, pos, pos_part, neg_part, ◌≤ℤ◌, half64}

pub record Float64 : Type 1 where
  pub Carrier : Type 0
  -- `decimal n k` is the literal n * 10^-k.
  pub decimal : ℤ → ℕ → Carrier
  -- The conversions float64(n), int64(x) and int32(x).
  pub of_int : ℤ → Carrier
  pub to_int64 : Carrier → ℤ
  pub to_int32 : Carrier → ℤ
  -- The conversion float64(float32(x)): the nearest float32.
  pub to_float32 : Carrier → Carrier
  pub add : Carrier → Carrier → Carrier
  pub sub : Carrier → Carrier → Carrier
  pub mul : Carrier → Carrier → Carrier
  pub div : Carrier → Carrier → Carrier
  -- The comparisons <, <= and ==, all false at a NaN.
  pub lt : Carrier → Carrier → Bool
  pub le : Carrier → Carrier → Bool
  pub eq : Carrier → Carrier → Bool
  -- The builtins min and max.
  pub min : Carrier → Carrier → Carrier
  pub max : Carrier → Carrier → Carrier
  -- The package math.
  pub is_nan : Carrier → Bool
  pub is_inf : Carrier → Bool
  pub ceil : Carrier → Carrier
  pub trunc : Carrier → Carrier
  pub sqrt : Carrier → Carrier
  pub abs : Carrier → Carrier
  -- strconv.ParseFloat(s, 64); `none` is an error.
  pub parse_float : String → Option Carrier

abbrev pub exact_limit : ℕ
exact_limit = 9007199254740992

pub record FloatLaws (F : Float64) : Type 0 where
  -- A conversion to int64 truncates towards zero where the value is in range, and an integer up to
  -- 2^53 is a float64.
  pub to_int64_ge :
      (n : ℤ) (x : F.Carrier)
      → pos_part n ≤ exact_limit
      → neg_part n ≤ exact_limit
      → F.lt x (F.of_int n) ≡ false
      → F.lt x (F.of_int (pos half64)) ≡ true
      → n ≤ℤ F.to_int64 x
  -- A conversion keeps the bounds of the value.
  pub to_int64_within :
      (low high : ℤ) (x : F.Carrier)
      → pos_part low ≤ exact_limit
      → neg_part low ≤ exact_limit
      → pos_part high ≤ exact_limit
      → neg_part high ≤ exact_limit
      → F.le (F.of_int low) x ≡ true
      → F.le x (F.of_int high) ≡ true
      → (low ≤ℤ F.to_int64 x) × (F.to_int64 x ≤ℤ high)
