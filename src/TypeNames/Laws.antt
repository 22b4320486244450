-- ===== src/TypeNames/Laws.antt =====
-- Names of types that are written from their parts are read as these parts.
use lrzwasnla.Common.{
  ◌≡◌, refl, ap, Bool, true, false, ◌||◌, Option, ◌++◌, Text, codes, starts_with, arith,
}
use lrzwasnla.Common.Exec.{ok}
use lrzwasnla.TypeNames.{
  TypeInfo, is_same, unwrap, without_parentheses, check_base, read_base, read_element,
  get_type_info_for_type_name,
}
use lrzwasnla.TypeNames.Parts.{
  IsName, Element, single, nullable, brackets, generic, is_array, is_nullable, written_default,
  written_element, IsDefault, Lacks-name, named, before-element, between-element,
  without_array-element, null-element, base-element, no_start,
}
use lrzwasnla.TypeNames.Texts.{has, drop_last-append, starts_with-Lacks, ends_with-Lacks}

-- What stands around an element: nothing, `Many<>` or `One<>`.
pub data Wrapper : Type 0 where
  bare many one : Wrapper

abbrev pub is_many : Wrapper → Bool
is_many many = true
is_many _ = false

abbrev pub is_one : Wrapper → Bool
is_one one = true
is_one _ = false

abbrev pub written_optional : Bool → Text → Text
written_optional true t = codes "?" ++ t
written_optional false t = t

abbrev pub written_wrapper : Wrapper → Text → Text
written_wrapper bare t = t
written_wrapper many t = codes "Many<" ++ (t ++ codes ">")
written_wrapper one t = codes "One<" ++ (t ++ codes ">")

abbrev pub written_promise : Bool → Text → Text
written_promise true t = codes "PromiseErrorOr<" ++ (t ++ codes ">")
written_promise false t = t

module _ (x : Text) (d : Option Text) (h : IsName x) (k : IsDefault d) where
  abbrev element : Element → Text
  element e = written_element e x (written_default d)

  no_question_mark : (e : Element) → starts_with (element e) (codes "?") ≡ false
  no_question_mark =
      no_start x d h k 63 (codes "?") refl refl (ground arith) (ground arith) (ground arith)
        (λ u. refl)

  parentheses-element : (e : Element) → without_parentheses (element e) ≡ element e
  unfolding without_parentheses
  parentheses-element e = ground (
    arith,
    no_start x d h k 40 (codes "(") refl refl (ground arith) (ground arith) (ground arith)
        (λ u. refl) e,
  )

  -- What is read of an element.
  abbrev pub info : Element → (is_optional can_be_error is_many_of is_one_of : Bool) → TypeInfo
  info e is_optional can_be_error is_many_of is_one_of = record {
    base_type_name = x;
    is_null = is_same x (codes "null");
    can_be_error = can_be_error || is_many_of || is_one_of;
    default_value_str = d;
    is_array_type = is_many_of || is_array e;
    is_nullable_type = is_nullable e;
    is_optional_type = is_optional;
    is_many_of = is_many_of;
    is_one_of = is_one_of;
  }

  check_base-name :
      (stack : Option Text) (e : Element) (is_optional b m o : Bool)
      → check_base stack b m o is_optional (is_array e) (is_nullable e) d x
        ≡ ok (info e is_optional b m o)
  unfolding check_base
  check_base-name stack e is_optional b m o =
      rw
        (
          ends_with-Lacks 93 x (codes "[]") (Lacks-name x d h k 93 refl) refl,
          starts_with-Lacks 60 x (codes "Array<") (Lacks-name x d h k 60 refl) refl,
        )
        refl

  read_base-named :
      (stack : Option Text) (e : Element) (is_optional b m o : Bool)
      → read_base stack b m o is_optional d (is_array e, named x d h k e)
        ≡ ok (info e is_optional b m o)
  unfolding read_base
  read_base-named stack single is_optional b m o =
      rw (null-element x d h k single) (check_base-name stack single is_optional b m o)
  read_base-named stack nullable is_optional b m o =
      rw (null-element x d h k nullable, base-element x d h k)
        (check_base-name stack nullable is_optional b m o)
  read_base-named stack brackets is_optional b m o =
      rw (null-element x d h k brackets) (check_base-name stack brackets is_optional b m o)
  read_base-named stack generic is_optional b m o =
      rw (null-element x d h k generic) (check_base-name stack generic is_optional b m o)

  read_element-element :
      (stack : Option Text) (e : Element) (is_optional b m o : Bool)
      → read_element stack b m o (written_optional is_optional (element e))
        ≡ ok (info e is_optional b m o)
  unfolding read_element
  read_element-element stack e true b m o =
      rw
        (
          parentheses-element e,
          before-element x d h k e,
          between-element x d h k e,
          without_array-element x d h k e,
        )
        (read_base-named stack e true b m o)
  read_element-element stack e false b m o =
      rw
        (
          no_question_mark e,
          parentheses-element e,
          before-element x d h k e,
          between-element x d h k e,
          without_array-element x d h k e,
        )
        (read_base-named stack e false b m o)

  abbrev optional : Bool → Element → Text
  optional is_optional e = written_optional is_optional (element e)

  no_wrapper :
      (p : Text)
      → has 60 p ≡ true
      → ((u : Text) → starts_with (codes "Array<" ++ u) p ≡ false)
      → ((u : Text) → starts_with (codes "?" ++ u) p ≡ false)
      → (is_optional : Bool) (e : Element)
      → unwrap p (optional is_optional e) ≡ (false, optional is_optional e)
  unfolding unwrap
  no_wrapper p hc a q true e = rw (q (element e)) refl
  no_wrapper p hc a q false e =
      rw (no_start x d h k 60 p refl hc (ground arith) (ground arith) (ground arith) a e) refl

  unwrap-many : (t : Text) → unwrap (codes "Many<") (written_wrapper many t) ≡ (true, t)
  unfolding unwrap
  unwrap-many t = ap (λ u. (true, u)) (drop_last-append t 62)

  unwrap-one : (t : Text) → unwrap (codes "One<") (written_wrapper one t) ≡ (true, t)
  unfolding unwrap
  unwrap-one t = ap (λ u. (true, u)) (drop_last-append t 62)

  many_before_one :
      (t : Text) → unwrap (codes "Many<") (written_wrapper one t) ≡ (false, written_wrapper one t)
  unfolding unwrap
  many_before_one t = refl

  unwrap-promise :
      (p : Bool) (w : Wrapper) (is_optional : Bool) (e : Element)
      → unwrap
          (codes "PromiseErrorOr<")
          (written_promise p (written_wrapper w (optional is_optional e)))
        ≡ (p, written_wrapper w (optional is_optional e))
  unfolding unwrap
  unwrap-promise true w is_optional e =
      ap (λ u. (true, u)) (drop_last-append (written_wrapper w (optional is_optional e)) 62)
  unwrap-promise false bare is_optional e =
      no_wrapper (codes "PromiseErrorOr<") refl (λ u. refl) (λ u. refl) is_optional e
  unwrap-promise false many is_optional e = refl
  unwrap-promise false one is_optional e = refl

  -- The name of a type that is written from a name, a default value, and the signs of an array, of
  -- nullability, of an optional type, of `Many<>` or `One<>` and of `PromiseErrorOr<>`, is read as
  -- these parts.
  pub get_type_info_for_type_name-written :
      (stack : Option Text) (is_promise : Bool) (w : Wrapper) (is_optional : Bool) (e : Element)
      → get_type_info_for_type_name stack (
          written_promise is_promise (
            written_wrapper w
              (written_optional is_optional (written_element e x (written_default d)))))
        ≡ ok (info e is_optional is_promise (is_many w) (is_one w))
  unfolding get_type_info_for_type_name
  get_type_info_for_type_name-written stack p bare is_optional e =
      rw
        (
          unwrap-promise p bare is_optional e,
          no_wrapper (codes "Many<") refl (λ u. refl) (λ u. refl) is_optional e,
          no_wrapper (codes "One<") refl (λ u. refl) (λ u. refl) is_optional e,
        )
        (read_element-element stack e is_optional p false false)
  get_type_info_for_type_name-written stack p many is_optional e =
      rw
        (
          unwrap-promise p many is_optional e,
          unwrap-many (optional is_optional e),
          no_wrapper (codes "One<") refl (λ u. refl) (λ u. refl) is_optional e,
        )
        (read_element-element stack e is_optional p true false)
  get_type_info_for_type_name-written stack p one is_optional e =
      rw
        (
          unwrap-promise p one is_optional e,
          many_before_one (optional is_optional e),
          unwrap-one (optional is_optional e),
        )
        (read_element-element stack e is_optional p false true)
