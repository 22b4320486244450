-- ===== src/Common/Strings.antt =====
-- Text that the source takes apart, as the list of its code units, with the string methods that
-- it uses. Keys and names that are only compared stay native strings.
use Prim.Native.Char.{code}
use Prim.Native.Nat.{ℕ, zero, suc, ◌+◌, ◌/◌, ◌%◌}
use Prim.Native.String.{String}
use mathlib.Core.Path.{◌≡◌, refl, ap, ◌∙◌}
use mathlib.Core.Logic.{◌≢◌}
use mathlib.Core.Bool.{Bool, true, false, ◌&&◌, ◌||◌}
use mathlib.Core.List.{List, [], ◌∷◌, ◌++◌, reverse}
use native.Mathlib.Omega.{arith}
use lrzwasnla.Common.Tests.{leb, ltb, ◌==◌, ==_iff, if◌then◌else◌}
use lrzwasnla.Common.Lists.{All}

abbrev pub Text : Type 0
Text = List ℕ

-- a text literal
abbrev pub codes : String → Text
codes String.[] = []
codes (String.◌∷◌ c s) = code c ∷ codes s

module _ {ℓ} {A : Type ℓ} where
  -- `slice(0, n)`
  abbrev pub take : ℕ → List A → List A
  take zero xs = []
  take (suc n) [] = []
  take (suc n) (x ∷ xs) = x ∷ take n xs

  -- `slice(n)`
  abbrev pub drop : ℕ → List A → List A
  drop zero xs = xs
  drop (suc n) [] = []
  drop (suc n) (x ∷ xs) = drop n xs

-- `text.startsWith(prefix)`
abbrev pub starts_with : Text → Text → Bool
starts_with s [] = true
starts_with [] (p ∷ ps) = false
starts_with (c ∷ s) (p ∷ ps) = (c == p) && starts_with s ps

abbrev prepend : ℕ → List Text → List Text
prepend c [] = (c ∷ []) ∷ []
prepend c (part ∷ parts) = (c ∷ part) ∷ parts

-- `text.toLowerCase()` of ASCII text, as the names of tables and fields are
abbrev pub to_lower_case : Text → Text
to_lower_case [] = []
to_lower_case (c ∷ s) = (if leb 65 c && leb c 90 then c + 32 else c) ∷ to_lower_case s

-- `text.split(separator)` at one code unit
unfoldable pub split : Text → ℕ → List Text
split [] sep = [] ∷ []
split (c ∷ s) sep = if c == sep then [] ∷ split s sep else prepend c (split s sep)

-- `parts.join(separator)`
unfoldable pub join : List Text → Text → Text
join [] sep = []
join (part ∷ []) sep = part
join (part ∷ next ∷ parts) sep = part ++ (sep ++ join (next ∷ parts) sep)

-- the white space of `trim` and `parseInt` up to U+00A0, and U+FEFF
abbrev pub is_space : ℕ → Bool
is_space c = (leb 9 c && leb c 13) || (c == 32) || (c == 160) || (c == 65279)

unfoldable pub trim_start : Text → Text
trim_start [] = []
trim_start (c ∷ s) = if is_space c then trim_start s else c ∷ s

unfoldable pub trim : Text → Text
unfolding trim_start
trim s = reverse (trim_start (reverse (trim_start s)))

-- `n.toString()`: the fuel, one above the number, is more than its digits
unfoldable pub show_from : ℕ → ℕ → Text → Text
show_from zero n out = out
show_from (suc fuel) n out =
    let rest = show_from fuel (n / 10) ((48 + n % 10) ∷ out) in
    if ltb n 10 then (48 + n) ∷ out else rest

unfoldable pub show : ℕ → Text
unfolding show_from
show n = show_from (suc n) n []

-- No part of a text is that code unit.
abbrev pub Lacks : ℕ → Text → Type 0
Lacks sep = All (λ c. c ≢ sep)

split_parts :
    (s : Text) (sep : ℕ) → (part : Text) × (parts : List Text) × (split s sep ≡ part ∷ parts)
unfolding split
split_parts [] sep = ([], [], refl)
split_parts (c ∷ s) sep =
    let (part, parts, e) = split_parts s sep in
    elim (c == sep)
      as (λ b.
        (p : Text) × (ps : List Text) × ((if b then [] ∷ split s sep else prepend c (split s sep))
          ≡ p ∷ ps)) [
            | true ↦ ([], split s sep, refl)
            | false ↦ (c ∷ part, parts, ap (prepend c) e)
          ]

join_step :
    (c sep : ℕ) (part : Text) (parts : List Text)
    → join (if c == sep then [] ∷ part ∷ parts else (c ∷ part) ∷ parts) (sep ∷ [])
      ≡ c ∷ join (part ∷ parts) (sep ∷ [])
unfolding join
join_step c sep part [] = ground (arith, ==_iff c sep)
join_step c sep part (next ∷ parts) = ground (arith, ==_iff c sep)

-- Joining what a split gave restores the text.
pub join-split : (s : Text) (sep : ℕ) → join (split s sep) (sep ∷ []) ≡ s
unfolding split
join-split [] sep = unfold join in refl
join-split (c ∷ s) sep =
    let (part, parts, e) = split_parts s sep in
    rw e (join_step c sep part parts ∙ ap (λ t. c ∷ t) (rw e at (join-split s sep)))

-- A split at the first separator.
pub split-append :
    (s rest : Text) (sep : ℕ) → Lacks sep s → split (s ++ sep ∷ rest) sep ≡ s ∷ split rest sep
unfolding split
split-append [] rest sep h = ground (arith, ==_iff sep sep)
split-append (c ∷ s) rest sep (ne, h) = ground (arith, ==_iff c sep, split-append s rest sep h)
