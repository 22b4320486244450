-- ===== src/TypeNames/Tests.antt =====
-- The name of the type of a function that answers many users.
use lrzwasnla.Common.{◌≡◌, refl, true, false, none, some, codes}
use lrzwasnla.Common.Exec.{ok}
use lrzwasnla.TypeNames.{get_type_info_for_type_name}
use lrzwasnla.TypeNames.Parts.{brackets, nullable, written_element, written_default}
use lrzwasnla.TypeNames.Laws.{
  many, is_many, is_one, written_promise, written_wrapper, written_optional, info,
  get_type_info_for_type_name-written,
}

get_type_info_for_type_name-written_example :
    get_type_info_for_type_name none (
      written_promise true (
        written_wrapper many (
          written_optional true
            (written_element nullable (codes "User") (written_default (some (codes "joe")))))))
    ≡ ok (
        info
          (codes "User")
          (some (codes "joe"))
          (refl, (refl, (refl, (refl, tt))))
          (refl, (refl, (refl, tt)))
          nullable
          true
          true
          (is_many many)
          (is_one many))
get_type_info_for_type_name-written_example =
    get_type_info_for_type_name-written (codes "User") (some (codes "joe"))
      (refl, (refl, (refl, (refl, tt)))) (refl, (refl, (refl, tt))) none true many true nullable

-- The text that the parts of a type are written as.
written_text :
    written_promise true (
      written_wrapper many
        (written_optional false (written_element brackets (codes "User") (written_default none))))
    ≡ codes "PromiseErrorOr<Many<User[]>>"
written_text = refl
