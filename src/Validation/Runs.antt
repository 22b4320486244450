-- ===== src/Validation/Runs.antt =====
-- validation/hasAtMostRepeatingOrConsecutiveCharacters.ts: the parts of a text that the loops look
-- for, described without the loops.
use lrzwasnla.Common.{
  ℕ, zero, suc, ◌+◌, ◌≤◌, ◌<◌, Bool, true, false, ◌&&◌, ◌≡◌, refl, ap, none, some, [], ◌∷◌, ◌++◌,
  Text, take, length, ltb, ◌==◌, ==_iff, arith, Bool-cases, inl, inr, if◌then◌else◌,
}
use lrzwasnla.TypeNames.{has_part}
use lrzwasnla.Validation.{exceeds, any_exceeds, letters, keyboard_from}

-- Each character is the one that is expected behind the one before.
unfoldable pub is_run : (ℕ → ℕ) → ℕ → Text → Bool
is_run next expected [] = true
is_run next expected (c ∷ w) = (c == expected) && is_run next (next c) w

-- two characters or more, each the one expected behind the one before
unfoldable pub is_sequence : (ℕ → ℕ) → Text → Bool
is_sequence next [] = false
is_sequence next (c ∷ []) = false
is_sequence next (c ∷ d ∷ w) = is_run next (next c) (d ∷ w)

-- No part of more than `n` characters is a sequence of one of the kinds.
abbrev pub IsMixed : ℕ → Text → Type 0
IsMixed n s =
    (a w b : Text)
    → s ≡ a ++ (w ++ b)
    → n < length w
    → (is_sequence (λ c. c) w ≡ false) × (is_sequence suc w ≡ false) × (has_part letters w ≡ false)

module _ (next : ℕ → ℕ) (n : ℕ) where
  pub is_run-exceeds :
      (e count : ℕ) (c : ℕ) (w b : Text)
      → is_run next e (c ∷ w) ≡ true
      → n < count + length (c ∷ w)
      → exceeds next e count n (c ∷ w ++ b) ≡ true
  unfolding exceeds is_run
  is_run-exceeds e count c [] b h l = ground arith
  is_run-exceeds e count c (d ∷ w) b h l = ground (arith, is_run-exceeds (next c) (suc count) d w b)

  pub exceeds-is_run :
      (e count : ℕ) (rest : Text)
      → exceeds next e count n rest ≡ true
      → (c : ℕ) × (w : Text) × (b : Text) × (rest ≡ c ∷ w ++ b)
        × (is_run next e (c ∷ w) ≡ true)
        × (n < count + length (c ∷ w))
  unfolding exceeds is_run
  exceeds-is_run e count [] h = absurd (ground arith)
  exceeds-is_run e count (c ∷ rest) h = elim (Bool-cases (ltb n (suc count))) [
    | inl far ↦ (c, [], rest, refl, ground (arith, ==_iff c e), ground arith)
    | inr near ↦
        let (d, w, b, parts, run, long) = exceeds-is_run (next c) (suc count) rest (ground arith) in
        (c, d ∷ w, b, ap (λ t. c ∷ t) parts, ground (arith, ==_iff c e), omega arith)
  ]

  pub is_sequence-any_exceeds :
      (a w b : Text)
      → is_sequence next w ≡ true
      → n < length w
      → any_exceeds next n (a ++ (w ++ b)) ≡ true
  unfolding any_exceeds is_sequence
  is_sequence-any_exceeds [] [] b h l = absurd (ground arith)
  is_sequence-any_exceeds [] (c ∷ []) b h l = absurd (ground arith)
  is_sequence-any_exceeds [] (c ∷ d ∷ w) b h l =
      rw (is_run-exceeds (next c) 1 d w b h (omega arith)) refl
  is_sequence-any_exceeds (c ∷ a) w b h l = ground (arith, is_sequence-any_exceeds a w b h l)

  pub any_exceeds-is_sequence :
      (s : Text)
      → any_exceeds next n s ≡ true
      → (a : Text) × (w : Text) × (b : Text) × (s ≡ a ++ (w ++ b))
        × (is_sequence next w ≡ true)
        × (n < length w)
  unfolding any_exceeds is_sequence
  any_exceeds-is_sequence [] h = absurd (ground arith)
  any_exceeds-is_sequence (c ∷ rest) h = elim (Bool-cases (exceeds next (next c) 1 n rest)) [
    | inl here ↦
        let (d, w, b, parts, run, long) = exceeds-is_run (next c) 1 rest here in
        ([], c ∷ d ∷ w, b, ap (λ t. c ∷ t) parts, run, omega arith)
    | inr there ↦
        let (a, w, b, parts, run, long) = any_exceeds-is_sequence rest (ground arith) in
        (c ∷ a, w, b, ap (λ t. c ∷ t) parts, run, long)
  ]

module _ (n : ℕ) where
  -- A part of more than `n` characters that lies on the keyboard ends the loop.
  pub keyboard_from-long :
      (s : Text) (j left largest k : ℕ)
      → largest ≤ n
      → has_part letters (take k s) ≡ true
      → n < k
      → j ≤ k
      → k < j + left
      → keyboard_from s j left largest n ≡ none
  unfolding keyboard_from
  keyboard_from-long s j zero largest k m h l low high = absurd (omega arith)
  keyboard_from-long s j (suc left) largest k m h l low high = elim (Bool-cases (j == k)) [
    | inl here ↦ ground (arith, ==_iff j k)
    | inr there ↦ ground (
      arith,
      ==_iff j k,
      keyboard_from-long s (suc j) left j k,
      keyboard_from-long s (suc j) left largest k,
    )
  ]

  larger_stays_low :
      (b : Bool) (j largest : ℕ)
      → largest ≤ n
      → (b && ltb n j) ≡ false
      → (if b && ltb largest j then j else largest) ≤ n
  larger_stays_low true j largest m h = ground arith
  larger_stays_low false j largest m h = m

  pub keyboard_from-none :
      (s : Text) (j left largest : ℕ)
      → largest ≤ n
      → keyboard_from s j left largest n ≡ none
      → (k : ℕ) × (has_part letters (take k s) ≡ true) × (n < k) × (k < j + left)
  unfolding keyboard_from
  keyboard_from-none s j zero largest m h = absurd (ground arith)
  keyboard_from-none s j (suc left) largest m h =
      let next = if has_part letters (take j s) && ltb largest j then j else largest in
      elim (Bool-cases (has_part letters (take j s) && ltb n j)) [
        | inl here ↦ (j, ground arith, ground arith, omega arith)
        | inr there ↦
            let (k, part, far, near) =
              keyboard_from-none s (suc j) left next
                (larger_stays_low (has_part letters (take j s)) j largest m there) (ground arith) in
            (k, part, far, omega arith)
      ]

  pub keyboard_from-some :
      (s : Text) (j left largest out : ℕ)
      → largest ≤ n
      → keyboard_from s j left largest n ≡ some out
      → out ≤ n
  unfolding keyboard_from
  keyboard_from-some s j zero largest out m h = ground arith
  keyboard_from-some s j (suc left) largest out m h = ground (
    arith,
    keyboard_from-some s (suc j) left j out,
    keyboard_from-some s (suc j) left largest out,
  )
