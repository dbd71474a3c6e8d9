-- ===== src/Iface/MapAccess.antt =====
-- wci/workflow/iface/map_access.go: typed reads of a dynamic map, and the checks of its fields.
use temporal_auto_scaled_wor.Prelude.{
  ℤ, pos_part, neg_part, ◌≤ℤ◌, ◌≤◌, ltb_ℤ, pos, half64, String, Option, none, some, true, ◌≡◌, ◌||◌,
  if◌then◌else◌, Map, lookup, parse_int, Float64, FloatLaws, exact_limit, arith,
}
use temporal_auto_scaled_wor.Iface.Types.{Value, int, int64, float32, float64, text, null}

-- The messages, with the values that they print.
pub data FieldError (F : Float64) : Type 0 where
  int_at_least : String → ℤ → FieldError F
  an_integer_at_least : String → ℤ → FieldError F
  float_at_least : String → F.Carrier → FieldError F
  a_number_at_least : String → F.Carrier → FieldError F
  must_be_real : String → FieldError F

module _ (F : Float64) where
  abbrev pub field : Option (Map (Value F)) → String → Option (Value F)
  field none k = none
  field (some m) k = lookup k m

  unfoldable pub int64_or : Option (Value F) → ℤ → ℤ
  int64_or none d = d
  int64_or (some (int n)) d = n
  int64_or (some (int64 n)) d = n
  int64_or (some (float64 x)) d = F.to_int64 x
  int64_or (some (text s)) d = elim (parse_int s) [ none ↦ d | some n ↦ n ]
  int64_or (some _) d = d

  unfoldable pub get_int64_from_map : Option (Map (Value F)) → String → ℤ → ℤ
  unfolding int64_or
  get_int64_from_map m k d = int64_or (field m k) d

  unfoldable pub float64_or : Option (Value F) → F.Carrier → F.Carrier
  float64_or none d = d
  float64_or (some (int n)) d = F.of_int n
  float64_or (some (int64 n)) d = F.of_int n
  float64_or (some (float32 x)) d = x
  float64_or (some (float64 x)) d = x
  float64_or (some (text s)) d = elim (F.parse_float s) [ none ↦ d | some x ↦ x ]
  float64_or (some _) d = d

  unfoldable pub get_float64_from_map : Option (Map (Value F)) → String → F.Carrier → F.Carrier
  unfolding float64_or
  get_float64_from_map m k d = float64_or (field m k) d

  -- `none` is no error.
  unfoldable pub int64_error : String → ℤ → Option (Value F) → Option (FieldError F)
  int64_error k low none = none
  int64_error k low (some null) = none
  int64_error k low (some (int n)) = if ltb_ℤ n low then some (int_at_least k low) else none
  int64_error k low (some (int64 n)) = if ltb_ℤ n low then some (int_at_least k low) else none
  int64_error k low (some (float64 x)) =
      if F.lt x (F.of_int low) then some (int_at_least k low) else none
  int64_error k low (some (text s)) = elim (parse_int s) [
    | none ↦ some (an_integer_at_least k low)
    | some n ↦ if ltb_ℤ n low then some (an_integer_at_least k low) else none
  ]
  int64_error k low (some _) = some (an_integer_at_least k low)

  unfoldable pub validate_int64_in_map : Option (Map (Value F)) → String → ℤ → Option (FieldError F)
  unfolding int64_error
  validate_int64_in_map m k low = int64_error k low (field m k)

  unfoldable pub float64_error : String → F.Carrier → Option (Value F) → Option (FieldError F)
  float64_error k low none = none
  float64_error k low (some null) = none
  float64_error k low (some (int n)) =
      if F.lt (F.of_int n) low then some (float_at_least k low) else none
  float64_error k low (some (int64 n)) =
      if F.lt (F.of_int n) low then some (float_at_least k low) else none
  float64_error k low (some (float32 x)) = if F.lt x low then some (float_at_least k low) else none
  float64_error k low (some (float64 x)) =
      if F.lt x low
      then some (float_at_least k low)
      else if F.is_inf x || F.is_nan x
      then some (must_be_real k)
      else none
  float64_error k low (some (text s)) = elim (F.parse_float s) [
    | none ↦ some (a_number_at_least k low)
    | some x ↦ if F.lt x low then some (a_number_at_least k low) else none
  ]
  float64_error k low (some _) = some (a_number_at_least k low)

  unfoldable pub validate_float64_in_map :
      Option (Map (Value F)) → String → F.Carrier → Option (FieldError F)
  unfolding float64_error
  validate_float64_in_map m k low = float64_error k low (field m k)

  -- A float64 that int64(x) truncates.
  abbrev pub IsConvertible : Option (Value F) → Type 0
  IsConvertible (some (float64 x)) = F.lt x (F.of_int (pos half64)) ≡ true
  IsConvertible _ = Unit {0}

  int64_error-int64_or :
      (laws : FloatLaws F) (k : String) (low d : ℤ) (v : Option (Value F))
      → pos_part low ≤ exact_limit
      → neg_part low ≤ exact_limit
      → low ≤ℤ d
      → IsConvertible v
      → int64_error k low v ≡ none
      → low ≤ℤ int64_or v d
  unfolding int64_error int64_or
  int64_error-int64_or laws k low d none a b h c e = h
  int64_error-int64_or laws k low d (some (float64 x)) a b h c e =
      laws.to_int64_ge low x a b (ground arith) c
  int64_error-int64_or laws k low d (some v) a b h c e = ground arith

  -- A field that `validateInt64InMap` accepts reads as at least the minimum, if the default is and
  -- a float64 in the map is below 2^63; the minimum is an integer that a float64 holds exactly.
  pub validate_int64_in_map-get_int64_from_map :
      (laws : FloatLaws F) (m : Option (Map (Value F))) (k : String) (low d : ℤ)
      → pos_part low ≤ exact_limit
      → neg_part low ≤ exact_limit
      → low ≤ℤ d
      → IsConvertible (field m k)
      → validate_int64_in_map m k low ≡ none
      → low ≤ℤ get_int64_from_map m k d
  unfolding validate_int64_in_map get_int64_from_map
  validate_int64_in_map-get_int64_from_map laws m k low d a b h c e =
      int64_error-int64_or laws k low d (field m k) a b h c e
