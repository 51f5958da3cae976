-- ===== src/Config/Decimal.antt =====
-- strconv.Atoi: an optional sign, then decimal digits, in the range of an int64.
use Prim.Native.Char.{Char, code}
use Prim.Native.String.{String, [], ◌∷◌}
use data_loom.Common.{
  ℕ, ◌+◌, ◌-◌, ◌*◌, ◌^◌, Bool, ◌&&◌, Option, none, some, Result, ok, err, ltb, leb, ◌==◌,
  if◌then◌else◌, nat_eq,
}

-- A signed number, as a sign and a magnitude.
pub data Int64 : Type 0 where
  nonneg : ℕ → Int64
  negative : ℕ → Int64

abbrev is_digit : Char → Bool
is_digit c = leb b'0' (code c) && leb (code c) b'9'

unfoldable pub digits : ℕ → String → Option ℕ
digits n [] = some n
digits n (c ∷ rest) =
    let more = digits (n * 10 + (code c - b'0')) rest in if is_digit c then more else none

-- At least one digit.
abbrev number : String → Option ℕ
number [] = none
number (c ∷ rest) = digits 0 (c ∷ rest)

abbrev invalid : Result Int64
invalid = err "strconv.Atoi: invalid syntax"

abbrev overflow : Result Int64
overflow = err "strconv.Atoi: value out of range"

abbrev as_nonneg : Option ℕ → Result Int64
as_nonneg none = invalid
as_nonneg (some n) = if ltb n (2 ^ 63) then ok (nonneg n) else overflow

abbrev as_negative : Option ℕ → Result Int64
as_negative none = invalid
as_negative (some n) = if ltb (2 ^ 63) n then overflow else ok (negative n)

unfoldable pub atoi : String → Result Int64
unfolding digits
atoi [] = invalid
atoi (c ∷ rest) =
    if code c == b'-'
    then as_negative (number rest)
    else if code c == b'+'
    then as_nonneg (number rest)
    else as_nonneg (digits 0 (c ∷ rest))
