-- ===== src/Common/Integers.antt =====
-- Whole numbers with a sign, as far as status codes and `parseInt` need them.
use Prim.Native.Nat.{ℕ, zero, suc, ◌+◌, ◌-◌, ◌*◌}
use mathlib.Core.Bool.{Bool, true, false, ◌&&◌, ◌||◌}
use mathlib.Core.Option.{Option, none, some}
use mathlib.Core.List.{[], ◌∷◌}
use lrzwasnla.Common.Tests.{leb, ◌==◌, if◌then◌else◌}
use lrzwasnla.Common.Strings.{Text, trim_start, starts_with, codes, drop, show}

-- `negsuc n` is -(n + 1).
pub data ℤ : Type 0 where
  pos : ℕ → ℤ
  negsuc : ℕ → ℤ

-- `a >= b` against a number that is not negative
abbrev pub at_least : ℤ → ℕ → Bool
at_least (pos a) b = leb b a
at_least (negsuc a) b = false

abbrev pub negate : ℕ → ℤ
negate zero = pos zero
negate (suc n) = negsuc n

-- `n.toString()`
abbrev pub show_ℤ : ℤ → Text
show_ℤ (pos n) = show n
show_ℤ (negsuc n) = b'-' ∷ show (suc n)

-- The value of a digit in a base of at most 16.
abbrev pub digit_value : Bool → ℕ → Option ℕ
digit_value is_hex c =
    if leb b'0' c && leb c b'9'
    then some (c - b'0')
    else if is_hex && leb b'a' c && leb c b'f'
    then some (c - b'a' + 10)
    else if is_hex && leb b'A' c && leb c b'F'
    then some (c - b'A' + 10)
    else none

abbrev pub base : Bool → ℕ
base true = 16
base false = 10

-- The digits up to the first unit that is none.
unfoldable pub scan_digits : Bool → ℕ → Text → ℕ
scan_digits is_hex n [] = n
scan_digits is_hex n (c ∷ s) = elim (digit_value is_hex c) [
  | some d ↦ scan_digits is_hex (n * base is_hex + d) s
  | none ↦ n
]

unfoldable pub parse_digits : Bool → Text → Option ℕ
unfolding scan_digits
parse_digits is_hex [] = none
parse_digits is_hex (c ∷ s) = elim (digit_value is_hex c) [
  | some d ↦ some (scan_digits is_hex d s)
  | none ↦ none
]

-- Hexadecimal behind `0x`, decimal otherwise.
parse_unsigned : Text → Option ℕ
unfolding parse_digits
parse_unsigned s =
    if starts_with s (codes "0x") || starts_with s (codes "0X")
    then parse_digits true (drop 2 s)
    else parse_digits false s

abbrev pub signed : (ℕ → ℤ) → Option ℕ → Option ℤ
signed sign none = none
signed sign (some n) = some (sign n)

unfoldable pub parse_signed : (Text → Option ℕ) → Text → Option ℤ
parse_signed unsigned [] = none
parse_signed unsigned (c ∷ s) =
    if c == b'-'
    then signed negate (unsigned s)
    else if c == b'+'
    then signed pos (unsigned s)
    else signed pos (unsigned (c ∷ s))

-- `parseInt(text)` with no base given; `none` is `NaN`, and -0 is 0
unfoldable pub parse_int : Text → Option ℤ
unfolding parse_signed parse_unsigned trim_start
parse_int s = parse_signed parse_unsigned (trim_start s)

-- `parseInt(text, 10)`
unfoldable pub parse_decimal : Text → Option ℤ
unfolding parse_signed parse_digits trim_start
parse_decimal s = parse_signed (parse_digits false) (trim_start s)
