-- ===== src/Tests/Decimal.antt =====
-- A concrete number type for the parameter that stands for float64: decimals of three places, with
-- one value that is not a number.
use temporal_auto_scaled_wor.Prelude.{
  ℕ, zero, suc, ◌+◌, ◌*◌, ◌-◌, ◌/◌, ◌≤◌, ◌<◌, ℤ, pos, negsuc, pos_part, neg_part, ◌≤ℤ◌, ◌+ℤ◌, ◌-ℤ◌,
  ltb_ℤ, leb_ℤ, eq_ℤ, min_ℤ, max_ℤ, half64, leb, ◌==◌, if◌then◌else◌, Bool, true, false, Option,
  none, some, parse_int, Float64, FloatLaws, ◌≡◌, ◌⊎◌, inl, inr, refl, arith,
}

-- The integer of a sign and a size.
abbrev signed_of : Bool → ℕ → ℤ
signed_of negative zero = pos 0
signed_of true (suc n) = negsuc n
signed_of false (suc n) = pos (suc n)

abbrev size : ℤ → ℕ
size a = pos_part a + neg_part a

abbrev is_negative : ℤ → Bool
is_negative (pos n) = false
is_negative (negsuc n) = true

abbrev differs : Bool → Bool → Bool
differs true true = false
differs false false = false
differs _ _ = true

abbrev times1000 : ℤ → ℤ
times1000 (pos n) = pos (n * 1000)
times1000 (negsuc n) = negsuc (n * 1000 + 999)

abbrev whole : ℤ → ℤ
whole (pos n) = pos (n / 1000)
whole (negsuc n) = signed_of true (suc n / 1000)

abbrev times : ℤ → ℤ → ℤ
times a b = signed_of (differs (is_negative a) (is_negative b)) (size a * size b / 1000)

abbrev over : ℤ → ℤ → Option ℤ
over a b =
    if size b == 0
    then none
    else some (signed_of (differs (is_negative a) (is_negative b)) (size a * 1000 / size b))

abbrev both : (ℤ → ℤ → ℤ) → Option ℤ → Option ℤ → Option ℤ
both f none b = none
both f (some a) none = none
both f (some a) (some b) = some (f a b)

abbrev compare : (ℤ → ℤ → Bool) → Option ℤ → Option ℤ → Bool
compare f none b = false
compare f (some a) none = false
compare f (some a) (some b) = f a b

abbrev quotient : Option ℤ → Option ℤ → Option ℤ
quotient none b = none
quotient (some a) none = none
quotient (some a) (some b) = over a b

abbrev each : (ℤ → ℤ) → Option ℤ → Option ℤ
each f none = none
each f (some a) = some (f a)

abbrev to_whole : Option ℤ → ℤ
to_whole none = negsuc 9223372036854775807
to_whole (some a) = whole a

-- The largest number whose square is at most n.
abbrev root : ℕ → ℕ
root zero = 0
root (suc n) = let r = root n in if leb (suc r * suc r) (suc n) then suc r else r

abbrev scaled : ℕ → ℤ → ℤ
scaled m (pos n) = pos (n * m)
scaled m (negsuc n) = negsuc (n * m + m - 1)

-- A literal of at most three places.
abbrev place : ℤ → ℕ → ℤ
place n zero = scaled 1000 n
place n (suc zero) = scaled 100 n
place n (suc (suc zero)) = scaled 10 n
place n (suc (suc (suc k))) = n

abbrev absent : Option ℤ → Bool
absent none = true
absent (some a) = false

abbrev parsed : Option ℤ → Option (Option ℤ)
parsed none = none
parsed (some n) = some (some (times1000 n))

abbrev pub Decimals : Float64
Decimals = record {
  Carrier = Option ℤ;
  decimal = λ n k. some (place n k);
  of_int = λ n. some (times1000 n);
  to_int64 = to_whole;
  to_int32 = to_whole;
  to_float32 = λ x. x;
  add = both (λ a b. a +ℤ b);
  sub = both (λ a b. a -ℤ b);
  mul = both times;
  div = quotient;
  lt = compare (λ a b. ltb_ℤ a b);
  le = compare (λ a b. leb_ℤ a b);
  eq = compare (λ a b. eq_ℤ a b);
  min = both (λ a b. min_ℤ a b);
  max = both (λ a b. max_ℤ a b);
  is_nan = absent;
  is_inf = λ x. false;
  ceil = each (λ a. times1000 (whole (a +ℤ pos 999)));
  trunc = each (λ a. times1000 (whole a));
  sqrt = each (λ a. pos (root (pos_part a * 1000)));
  abs = each (λ a. pos (size a));
  parse_float = λ s. parsed (parse_int s);
}

signed_cases :
    (a q : ℕ)
    → q * 1000 ≤ a + 1
    → a + 1 < (q + 1) * 1000
    → ((signed_of true q ≡ pos 0) × (a < 999))
      ⊎ ((k : ℕ) × (signed_of true q ≡ negsuc k) × ((k + 1) * 1000 ≤ a + 1))
signed_cases a zero l h = inl (refl, omega arith)
signed_cases a (suc q) l h = inr (q, refl, omega arith)

whole_cases :
    (a : ℕ)
    → ((whole (negsuc a) ≡ pos 0) × (a < 999))
      ⊎ ((k : ℕ) × (whole (negsuc a) ≡ negsuc k) × ((k + 1) * 1000 ≤ a + 1))
whole_cases a = signed_cases a (suc a / 1000) (omega arith) (omega arith)

whole_ge : (n a : ℤ) → ltb_ℤ a (times1000 n) ≡ false → n ≤ℤ whole a
whole_ge (pos n) (pos a) h = ground arith
whole_ge (pos n) (negsuc a) h = ground arith
whole_ge (negsuc n) (pos a) h = ground arith
whole_ge (negsuc n) (negsuc a) h = elim (whole_cases a) [
  | inl (e, small) ↦ rw e (omega arith)
  | inr (k, e, large) ↦ rw e (ground arith)
]

whole_le : (n a : ℤ) → leb_ℤ a (times1000 n) ≡ true → whole a ≤ℤ n
whole_le (pos n) (pos a) h = ground arith
whole_le (negsuc n) (pos a) h = ground arith
whole_le (pos n) (negsuc a) h = elim (whole_cases a) [
  | inl (e, small) ↦ rw e (omega arith)
  | inr (k, e, large) ↦ rw e (omega arith)
]
whole_le (negsuc n) (negsuc a) h = elim (whole_cases a) [
  | inl (e, small) ↦ absurd (ground arith)
  | inr (k, e, large) ↦ rw e (ground arith)
]

ge_law :
    (n : ℤ) (x : Option ℤ)
    → compare (λ a b. ltb_ℤ a b) x (some (times1000 n)) ≡ false
    → compare (λ a b. ltb_ℤ a b) x (some (times1000 (pos half64))) ≡ true
    → n ≤ℤ to_whole x
ge_law n none h u = absurd (ground arith)
ge_law n (some a) h u = whole_ge n a h

within_law :
    (low high : ℤ) (x : Option ℤ)
    → compare (λ a b. leb_ℤ a b) (some (times1000 low)) x ≡ true
    → compare (λ a b. leb_ℤ a b) x (some (times1000 high)) ≡ true
    → (low ≤ℤ to_whole x) × (to_whole x ≤ℤ high)
within_law low high none l h = absurd (ground arith)
within_law low high (some a) l h = (whole_ge low a (ground arith), whole_le high a h)

pub Decimals-laws : FloatLaws Decimals
Decimals-laws = record {
  to_int64_ge = λ n x a b h u. ge_law n x h u;
  to_int64_within = λ low high x a b c d l h. within_law low high x l h;
}
