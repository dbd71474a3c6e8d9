-- ===== src/Prelude/Text.antt =====
-- Go strings: their codes, and `strconv.ParseInt` at base 10 and 64 bits.
use Prim.Native.Nat.{ℕ, ◌+◌, ◌-◌, ◌*◌}
use Prim.Native.Char.{code}
use Prim.Native.String.{String}
use mathlib.Core.Bool.{◌&&◌}
use mathlib.Core.Option.{Option, none, some}
use mathlib.Core.List.{List, [], ◌∷◌}
use temporal_auto_scaled_wor.Prelude.Tests.{ltb, leb, ◌==◌, if◌then◌else◌}
use temporal_auto_scaled_wor.Prelude.Int.{ℤ, pos, negsuc, half64}

abbrev pub codes : String → List ℕ
codes (String.◌∷◌ first rest) = code first ∷ codes rest
codes String.[] = []

parse_digits : List ℕ → ℕ → Option ℕ
parse_digits [] acc = some acc
parse_digits (c ∷ cs) acc =
    let rest = parse_digits cs (acc * 10 + (c - b'0')) in
    if leb b'0' c && leb c b'9' then rest else none

-- At least one digit.
parse_natural : List ℕ → Option ℕ
unfolding parse_digits
parse_natural [] = none
parse_natural (c ∷ cs) = parse_digits (c ∷ cs) 0

in_range_pos : Option ℕ → Option ℤ
in_range_pos none = none
in_range_pos (some n) = if ltb n half64 then some (pos n) else none

in_range_neg : Option ℕ → Option ℤ
in_range_neg none = none
in_range_neg (some n) =
    if n == 0 then some (pos 0) else if leb n half64 then some (negsuc (n - 1)) else none

parse_signed : List ℕ → Option ℤ
unfolding parse_natural in_range_pos in_range_neg
parse_signed [] = none
parse_signed (c ∷ cs) =
    if c == b'-'
    then in_range_neg (parse_natural cs)
    else if c == b'+'
    then in_range_pos (parse_natural cs)
    else in_range_pos (parse_natural (c ∷ cs))

-- `none` is an error of the parser.
unfoldable pub parse_int : String → Option ℤ
unfolding parse_signed
parse_int s = parse_signed (codes s)
