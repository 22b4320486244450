-- ===== src/TypeNames/Parts.antt =====
-- How the parts of a written type are found again.
use lrzwasnla.Common.{
  ℕ, ◌≡◌, refl, ap, ◌∙◌, sym, Bool, true, false, ◌&&◌, ◌||◌, Option, none, some, [], ◌∷◌, ◌++◌,
  Text, codes, starts_with, Lacks, All, leb, ◌==◌, Option-cases, inl, inr, arith,
}
use lrzwasnla.TypeNames.{ends_with, before, between, unwrap, without_array}
use lrzwasnla.TypeNames.Texts.{
  has, starts_with-Lacks, ends_with-Lacks, ends_with-append, drop_last-append, drop_last-append2,
  not_array, ++-[], before-append, between-append, Lacks-++,
}

-- A character of an identifier or of a number.
abbrev pub is_name_char : ℕ → Bool
is_name_char c =
    (leb 48 c && leb c 57) || (leb 65 c && leb c 90) || (leb 97 c && leb c 122) || (c == 95)

abbrev pub IsName : Text → Type 0
IsName = All (λ c. is_name_char c ≡ true)

pub name-Lacks : (c : ℕ) (s : Text) → is_name_char c ≡ false → IsName s → Lacks c s
name-Lacks c [] e h = tt
name-Lacks c (x ∷ s) e (n, h) = (λ same. absurd (ground (arith, same)), name-Lacks c s e h)

-- The ways to write the type of a value or of several values.
pub data Element : Type 0 where
  single nullable brackets generic : Element

abbrev pub is_array : Element → Bool
is_array brackets = true
is_array generic = true
is_array _ = false

abbrev pub is_nullable : Element → Bool
is_nullable nullable = true
is_nullable _ = false

-- A default value and what stands in front of it.
abbrev pub written_default : Option Text → Text
written_default none = []
written_default (some d) = codes " = " ++ d

abbrev pub written_element : Element → Text → Text → Text
written_element single x rest = x ++ rest
written_element nullable x rest = x ++ (codes " | null" ++ rest)
written_element brackets x rest = x ++ (codes "[]" ++ rest)
written_element generic x rest = codes "Array<" ++ (x ++ (codes ">" ++ rest))

abbrev pub IsDefault : Option Text → Type 0
IsDefault none = Unit
IsDefault (some d) = IsName d

before-default : (d : Option Text) → before (codes " = ") (written_default d) ≡ []
unfolding before
before-default none = refl
before-default (some d) = refl

before-null :
    (d : Option Text)
    → before (codes " = ") (codes " | null" ++ written_default d) ≡ codes " | null"
unfolding before
before-null none = refl
before-null (some d) = refl

before-brackets :
    (d : Option Text) → before (codes " = ") (codes "[]" ++ written_default d) ≡ codes "[]"
unfolding before
before-brackets none = refl
before-brackets (some d) = refl

before-generic :
    (d : Option Text) → before (codes " = ") (codes ">" ++ written_default d) ≡ codes ">"
unfolding before
before-generic none = refl
before-generic (some d) = refl

before-name : (d : Text) → IsName d → before (codes " = ") d ≡ d
unfolding before
before-name d h =
    ap (before (codes " = ")) (sym (++-[] d))
    ∙ before-append 32 (codes "= ") d [] (name-Lacks 32 d refl h)
    ∙ ++-[] d

between-default : (d : Option Text) → IsDefault d → between (codes " = ") (written_default d) ≡ d
unfolding between
between-default none h = refl
between-default (some d) h = ap some (before-name d h)

module _ (x : Text) (d : Option Text) (h : IsName x) (k : IsDefault d) where
  pub Lacks-name : (c : ℕ) → is_name_char c ≡ false → Lacks c x
  Lacks-name c e = name-Lacks c x e h

  -- The element without its default value.
  pub before-element :
      (e : Element)
      → before (codes " = ") (written_element e x (written_default d)) ≡ written_element e x []
  unfolding before
  before-element single =
      before-append 32 (codes "= ") x (written_default d) (Lacks-name 32 refl)
      ∙ ap (λ t. x ++ t) (before-default d)
  before-element nullable =
      before-append 32 (codes "= ") x (codes " | null" ++ written_default d) (Lacks-name 32 refl)
      ∙ ap (λ t. x ++ t) (before-null d)
  before-element brackets =
      before-append 32 (codes "= ") x (codes "[]" ++ written_default d) (Lacks-name 32 refl)
      ∙ ap (λ t. x ++ t) (before-brackets d)
  before-element generic =
      ap (λ t. codes "Array<" ++ t)
        (before-append 32 (codes "= ") x (codes ">" ++ written_default d) (Lacks-name 32 refl)
          ∙ ap (λ t. x ++ t) (before-generic d))

  between-rest :
      (rest : Text) → between (codes " = ") rest ≡ d → between (codes " = ") (x ++ rest) ≡ d
  between-rest rest e = between-append 32 (codes "= ") x rest (Lacks-name 32 refl) ∙ e

  -- The default value.
  pub between-element :
      (e : Element) → between (codes " = ") (written_element e x (written_default d)) ≡ d
  unfolding between
  between-element single = between-rest (written_default d) (between-default d k)
  between-element nullable =
      between-rest (codes " | null" ++ written_default d) (between-default d k)
  between-element brackets = between-rest (codes "[]" ++ written_default d) (between-default d k)
  between-element generic = between-rest (codes ">" ++ written_default d) (between-default d k)

  -- The name in front of a sign of nullability.
  abbrev pub named : Element → Text
  named nullable = x ++ codes " | null"
  named _ = x

  Lacks-append : (c : ℕ) (t : Text) → is_name_char c ≡ false → Lacks c t → Lacks c (x ++ t)
  Lacks-append c t e l = Lacks-++ c x t (Lacks-name c e) l

  pub without_array-element :
      (e : Element) → without_array (written_element e x []) ≡ (is_array e, named e)
  unfolding without_array unwrap
  without_array-element single =
      ap without_array (++-[] x) ∙ not_array x (Lacks-name 93 refl) (Lacks-name 60 refl)
  without_array-element nullable =
      not_array (x ++ codes " | null") (Lacks-append 93 (codes " | null") refl (ground arith))
        (Lacks-append 60 (codes " | null") refl (ground arith))
  without_array-element brackets =
      ground (arith, ends_with-append x 91 (93 ∷ []), drop_last-append2 x 91 93)
  without_array-element generic =
      let t = codes "Array<" ++ (x ++ codes ">") in
      let l =
        Lacks-++ 93 (codes "Array<") (x ++ codes ">") (ground arith)
          (Lacks-append 93 (codes ">") refl (ground arith)) in
      ground (arith, ends_with-Lacks 93 t (codes "[]") l refl, drop_last-append x 62)

  -- The sign of nullability is found where it is, and taken off.
  pub null-element : (e : Element) → ends_with (named e) (codes " | null") ≡ is_nullable e
  null-element nullable = ends_with-append x 32 (codes "| null")
  null-element single = ends_with-Lacks 32 x (codes " | null") (Lacks-name 32 refl) refl
  null-element brackets = ends_with-Lacks 32 x (codes " | null") (Lacks-name 32 refl) refl
  null-element generic = ends_with-Lacks 32 x (codes " | null") (Lacks-name 32 refl) refl

  pub base-element : before (codes " | null") (x ++ codes " | null") ≡ x
  unfolding before
  base-element =
      before-append 32 (codes "| null") x (codes " | null") (Lacks-name 32 refl) ∙ ++-[] x

  default-Lacks :
      (c : ℕ) → is_name_char c ≡ false → Lacks c (codes " = ") → Lacks c (written_default d)
  default-Lacks c n l = elim (Option-cases d) [
    | inl e ↦ rw e tt
    | inr (text, e) ↦ rw e (Lacks-++ c (codes " = ") text l (name-Lacks c text n (is_name text e)))
  ]
    where
      is_name : (text : Text) → d ≡ some text → IsName text
      is_name text e = rw e at k

  -- What no element begins with.
  pub no_start :
      (c : ℕ) (p : Text)
      → is_name_char c ≡ false
      → has c p ≡ true
      → Lacks c (codes " = ")
      → Lacks c (codes " | null")
      → Lacks c (codes "[]")
      → ((u : Text) → starts_with (codes "Array<" ++ u) p ≡ false)
      → (e : Element) → starts_with (written_element e x (written_default d)) p ≡ false
  no_start c p n hc l1 l2 l3 g single =
      starts_with-Lacks c _ p (Lacks-append c _ n (default-Lacks c n l1)) hc
  no_start c p n hc l1 l2 l3 g nullable =
      starts_with-Lacks c _ p
        (Lacks-append c _ n (Lacks-++ c (codes " | null") _ l2 (default-Lacks c n l1))) hc
  no_start c p n hc l1 l2 l3 g brackets =
      starts_with-Lacks c _ p
        (Lacks-append c _ n (Lacks-++ c (codes "[]") _ l3 (default-Lacks c n l1))) hc
  no_start c p n hc l1 l2 l3 g generic = g _
