-- ===== src/TypeNames/Texts.antt =====
-- The text operations of type names on texts that lack a character.
use lrzwasnla.Common.{
  ℕ, ◌≡◌, refl, ap, ◌∙◌, Bool, true, false, ◌||◌, [], ◌∷◌, ◌++◌, Text, codes, starts_with, Lacks,
  ==_iff, ◌==◌, arith,
}
use lrzwasnla.TypeNames.{drop_last, is_same, ends_with, before, between, unwrap, without_array}

abbrev pub has : ℕ → Text → Bool
has c [] = false
has c (d ∷ t) = (d == c) || has c t

pub starts_with-Lacks : (c : ℕ) (s p : Text) → Lacks c s → has c p ≡ true → starts_with s p ≡ false
starts_with-Lacks c s [] h e = absurd (ground arith)
starts_with-Lacks c [] (d ∷ p) h e = refl
starts_with-Lacks c (x ∷ s) (d ∷ p) (ne, h) e =
    ground (arith, ==_iff x d, ==_iff d c, starts_with-Lacks c s p h)

is_same-Lacks : (c : ℕ) (s p : Text) → Lacks c s → has c p ≡ true → is_same s p ≡ false
is_same-Lacks c s [] h e = absurd (ground arith)
is_same-Lacks c [] (d ∷ p) h e = refl
is_same-Lacks c (x ∷ s) (d ∷ p) (ne, h) e =
    ground (arith, ==_iff x d, ==_iff d c, is_same-Lacks c s p h)

pub ends_with-Lacks : (c : ℕ) (s p : Text) → Lacks c s → has c p ≡ true → ends_with s p ≡ false
unfolding ends_with
ends_with-Lacks c [] p h e = is_same-Lacks c [] p h e
ends_with-Lacks c (x ∷ s) p (ne, h) e =
    ground (arith, is_same-Lacks c (x ∷ s) p (ne, h) e, ends_with-Lacks c s p h e)

is_same_self : (s : Text) → is_same s s ≡ true
is_same_self [] = refl
is_same_self (c ∷ s) = ground (arith, ==_iff c c, is_same_self s)

pub ends_with-append : (s : Text) (c : ℕ) (t : Text) → ends_with (s ++ c ∷ t) (c ∷ t) ≡ true
unfolding ends_with
ends_with-append [] c t = ground (arith, is_same_self (c ∷ t))
ends_with-append (x ∷ s) c t = ground (arith, ends_with-append s c t)

pub drop_last-append : (s : Text) (c : ℕ) → drop_last (s ++ c ∷ []) ≡ s
unfolding drop_last
drop_last-append [] c = refl
drop_last-append (a ∷ []) c = refl
drop_last-append (a ∷ b ∷ s) c = ap (λ t. a ∷ t) (drop_last-append (b ∷ s) c)

drop_last-front : (s : Text) (c d : ℕ) → drop_last (s ++ c ∷ d ∷ []) ≡ s ++ c ∷ []
unfolding drop_last
drop_last-front [] c d = refl
drop_last-front (a ∷ []) c d = refl
drop_last-front (a ∷ b ∷ s) c d = ap (λ t. a ∷ t) (drop_last-front (b ∷ s) c d)

pub drop_last-append2 : (s : Text) (c d : ℕ) → drop_last (drop_last (s ++ c ∷ d ∷ [])) ≡ s
drop_last-append2 s c d = ap drop_last (drop_last-front s c d) ∙ drop_last-append s c

pub not_array : (t : Text) → Lacks 93 t → Lacks 60 t → without_array t ≡ (false, t)
unfolding without_array unwrap
not_array t l m = ground (
  arith,
  ends_with-Lacks 93 t (codes "[]") l refl,
  starts_with-Lacks 60 t (codes "Array<") m refl,
)

pub ++-[] : (s : Text) → s ++ [] ≡ s
++-[] [] = refl
++-[] (c ∷ s) = ap (λ t. c ∷ t) (++-[] s)

pub before-append :
    (c : ℕ) (p s rest : Text) → Lacks c s → before (c ∷ p) (s ++ rest) ≡ s ++ before (c ∷ p) rest
unfolding before
before-append c p [] rest h = refl
before-append c p (x ∷ s) rest (ne, h) = ground (arith, ==_iff x c, before-append c p s rest h)

pub between-append :
    (c : ℕ) (p s rest : Text) → Lacks c s → between (c ∷ p) (s ++ rest) ≡ between (c ∷ p) rest
unfolding between
between-append c p [] rest h = refl
between-append c p (x ∷ s) rest (ne, h) = ground (arith, ==_iff x c, between-append c p s rest h)

pub Lacks-++ : (c : ℕ) (s t : Text) → Lacks c s → Lacks c t → Lacks c (s ++ t)
Lacks-++ c [] t h k = k
Lacks-++ c (x ∷ s) t (ne, h) k = (ne, Lacks-++ c s t h k)
