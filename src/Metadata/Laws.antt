-- ===== src/Metadata/Laws.antt =====
-- What the access of a property is told as.
use lrzwasnla.Common.{
  String, ◌≡◌, Bool, true, false, not, ◌&&◌, Option, none, some, List, [], ◌∷◌, Dict, at, put,
  at-put, default_to, any, ◌===◌, if◌then◌else◌, arith, eq_iff,
}
use lrzwasnla.Common.Exec.{ok}
use lrzwasnla.Annotations.Classes.{Class}
use lrzwasnla.Annotations.Entity.{EntityAnnotationContainer, is_entity}
use lrzwasnla.Annotations.TypeProperty.{
  TypePropertyAnnotationContainer, is_type_property_private, is_type_property_create_only,
  is_type_property_read_only, is_type_property_read_write, is_type_property_update_only,
  is_type_property_write_only, is_type_property_read_update,
}
use lrzwasnla.Metadata.{keys, type_property_access, reduce_access, get_type_property_access_type}

-- the word of the first annotation that is there
abbrev pub first_word : List (Bool × String) → Option String
first_word [] = none
first_word ((true, word) ∷ rest) = some word
first_word ((false, word) ∷ rest) = first_word rest

module _ {Any : Type 0} (properties : TypePropertyAnnotationContainer Any) (c : Class) where
  -- The annotations that are told, each with its word, the first of them before the others.
  abbrev pub words : String → List (Bool × String)
  words name =
      (is_type_property_create_only properties c name, "createOnly")
      ∷ (is_type_property_read_only properties c name, "readOnly")
      ∷ (is_type_property_read_write properties c name, "readWrite")
      ∷ (is_type_property_update_only properties c name, "updateOnly")
      ∷ (is_type_property_write_only properties c name, "writeOnly")
      ∷ (is_type_property_read_update properties c name, "readUpdate")
      ∷ []

  -- What is told of a property: the word of its annotation, and nothing of a private one.
  abbrev pub told_access : String → Option String
  told_access name =
      if is_type_property_private properties c name then none else first_word (words name)

  -- For a property that is not private the code finds the word of the list.
  type_property_access-first_word :
      (name : String)
      → is_type_property_private properties c name ≡ false
      → type_property_access properties c name ≡ first_word (words name)
  unfolding type_property_access
  type_property_access-first_word name h = ground (arith, h)

  at-reduce_access :
      (names : List String) (modifiers d : Dict String) (name : String)
      → reduce_access properties c names modifiers ≡ ok d
      → at d name ≡ (
          if any (λ other. other === name) names && not (is_type_property_private properties c name)
          then type_property_access properties c name
          else at modifiers name)
  unfolding reduce_access
  at-reduce_access [] modifiers d name h = ground arith
  at-reduce_access (other ∷ names) modifiers d name h = ground (
    arith,
    at-reduce_access names modifiers d name,
    eq_iff other name,
    at-reduce_access names
        (put modifiers other (default_to "" (type_property_access properties c other))) d name,
    at-put modifiers other name (default_to "" (type_property_access properties c other)),
  )

  -- Where nothing is thrown, what is told of an entity is this: each property that the metadata name
  -- has the word of its annotation, no private one and no other property is told, and of a class
  -- that is no entity nothing is.
  pub at-get_type_property_access_type :
      (entities : EntityAnnotationContainer) (type_metadata : Option (Dict String))
      (d : Dict String) (name : String)
      → get_type_property_access_type properties c entities type_metadata ≡ ok d
      → at d name ≡ (
          if is_entity entities c
            && any (λ other. other === name) (keys (default_to [] type_metadata))
          then told_access name
          else none)
  unfolding get_type_property_access_type at
  at-get_type_property_access_type entities type_metadata d name h = ground (
    arith,
    at-reduce_access (keys (default_to [] type_metadata)) [] d name,
    type_property_access-first_word name,
  )
