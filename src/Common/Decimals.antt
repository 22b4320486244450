-- ===== src/Common/Decimals.antt =====
-- Numbers that are written are read back.
use Prim.Native.Nat.{ℕ, zero, suc, ◌+◌, ◌*◌, ◌/◌, ◌%◌, ◌<◌}
use mathlib.Core.Path.{◌≡◌, refl, sym, ap, ◌∙◌}
use mathlib.Core.Logic.{◌≢◌, inl, inr}
use mathlib.Core.Bool.{Bool, false, ◌&&◌}
use mathlib.Core.Option.{some}
use mathlib.Core.List.{[], ◌∷◌}
use native.Mathlib.Omega.{arith}
use lrzwasnla.Common.Tests.{Bool-cases, leb, ltb}
use lrzwasnla.Common.Lists.{All}
use lrzwasnla.Common.Strings.{Text, trim_start, Lacks, show, show_from}
use lrzwasnla.Common.Integers.{
  ℤ, pos, negsuc, show_ℤ, signed, digit_value, scan_digits, parse_digits, parse_signed,
  parse_decimal,
}

abbrev is_digit : ℕ → Bool
is_digit c = leb 48 c && leb c 57

show_from-All :
    (P : ℕ → Type 0)
    → ((d : ℕ) → d < 10 → P (48 + d))
    → (fuel n : ℕ) (out : Text) → n < fuel
    → All P out
    → (c : ℕ) × (s : Text) × (show_from fuel n out ≡ c ∷ s) × (P c) × All P s
unfolding show_from
show_from-All P digits zero n out h rest = absurd (omega arith)
show_from-All P digits (suc fuel) n out h rest = elim (Bool-cases (ltb n 10)) [
  | inl last ↦ (48 + n, out, ground arith, digits n (ground arith), rest)
  | inr more ↦
      let (c, s, e, p, ps) =
        show_from-All P digits fuel (n / 10) ((48 + n % 10) ∷ out) (ground arith)
          (digits (n % 10) (omega arith), rest) in
      (c, s, ground (arith, e), p, ps)
]

digit_value-digit : (d : ℕ) → d < 10 → digit_value false (48 + d) ≡ some d
digit_value-digit d h = ground arith

scan_digit :
    (n d m : ℕ) (out : Text)
    → d < 10
    → n * 10 + d ≡ m
    → scan_digits false n ((48 + d) ∷ out) ≡ scan_digits false m out
unfolding scan_digits
scan_digit n d m out h e =
    rw (digit_value-digit d h, scan_digits) (ap (λ k. scan_digits false k out) e)

scan_digits-show_from :
    (fuel n : ℕ) (out : Text)
    → n < fuel
    → scan_digits false 0 (show_from fuel n out) ≡ scan_digits false n out
unfolding show_from scan_digits
scan_digits-show_from zero n out h = absurd (omega arith)
scan_digits-show_from (suc fuel) n out h = elim (Bool-cases (ltb n 10)) [
  | inl last ↦ rw last (scan_digit 0 n n out (ground arith) (omega arith))
  | inr more ↦ rw more (
      scan_digits-show_from fuel (n / 10) ((48 + n % 10) ∷ out) (ground arith)
      ∙ scan_digit (n / 10) (n % 10) n out (omega arith) (omega arith))
]

scan_digits-show : (n : ℕ) → scan_digits false 0 (show n) ≡ n
unfolding show scan_digits
scan_digits-show n = scan_digits-show_from (suc n) n [] (omega arith)

parse_digits-digit :
    (c d : ℕ) (s : Text)
    → d < 10
    → c ≡ 48 + d
    → parse_digits false (c ∷ s) ≡ some (scan_digits false 0 (c ∷ s))
unfolding parse_digits scan_digits
parse_digits-digit c d s h e = rw e (
    rw (digit_value-digit d h, parse_digits, scan_digits)
      (ap (λ k. some (scan_digits false k s)) (omega arith)))

abbrev IsDigit : ℕ → Type 0
IsDigit c = (d : ℕ) × (d < 10) × (c ≡ 48 + d)

show_digits : (n : ℕ) → (c : ℕ) × (s : Text) × (show n ≡ c ∷ s) × IsDigit c × All IsDigit s
unfolding show
show_digits n = show_from-All IsDigit (λ d h. (d, h, refl)) (suc n) n [] (omega arith) tt

parse_digits-show : (n : ℕ) → parse_digits false (show n) ≡ some n
parse_digits-show n =
    let (c, s, e, (d, small, is), ps) = show_digits n in
    ap (λ t. parse_digits false t) e
    ∙ (parse_digits-digit c d s small is
        ∙ (ap (λ t. some (scan_digits false 0 t)) (sym e) ∙ ap some (scan_digits-show n)))

parse_decimal-digit :
    (c d : ℕ) (s : Text)
    → d < 10
    → c ≡ 48 + d
    → parse_decimal (c ∷ s) ≡ signed pos (parse_digits false (c ∷ s))
unfolding parse_decimal parse_signed trim_start
parse_decimal-digit c d s h e = ground arith

-- A number that is written is read back with the base 10.
pub parse_decimal-show_ℤ : (n : ℤ) → parse_decimal (show_ℤ n) ≡ some n
unfolding parse_decimal parse_signed trim_start
parse_decimal-show_ℤ (pos n) =
    let (c, s, e, (d, small, is), ps) = show_digits n in
    ap parse_decimal e
    ∙ (parse_decimal-digit c d s small is
        ∙ (ap (λ t. signed pos (parse_digits false t)) (sym e)
            ∙ ap (λ o. signed pos o) (parse_digits-show n)))
parse_decimal-show_ℤ (negsuc n) = rw (parse_digits-show (suc n)) refl

-- No character of a number is one that lies before the digits and is not the sign.
pub show-Lacks : (n sep : ℕ) → sep < 48 → Lacks sep (show n)
unfolding show
show-Lacks n sep h =
    let (c, s, e, p, ps) =
      show_from-All (λ c. c ≢ sep) (λ d k. ground arith) (suc n) n [] (omega arith) tt in
    rw e (p, ps)

pub show_ℤ-Lacks : (n : ℤ) → Lacks 44 (show_ℤ n)
show_ℤ-Lacks (pos n) = show-Lacks n 44 (omega arith)
show_ℤ-Lacks (negsuc n) = (ground arith, show-Lacks (suc n) 44 (omega arith))
