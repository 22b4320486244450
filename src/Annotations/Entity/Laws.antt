-- ===== src/Annotations/Entity/Laws.antt =====
-- Which classes are entities after a registration.
use lrzwasnla.Common.{
  String, ◌≡◌, refl, ◌||◌, Option, none, some, List, [], ◌∷◌, Dict, at, put, at-put, is_defined,
  any, ◌===◌, arith,
}
use lrzwasnla.Common.Exec.{ok}
use lrzwasnla.Annotations.Classes.{Class, prototypes, nearest}
use lrzwasnla.Annotations.Entity.{
  EntityAnnotationContainer, is_entity, add_entity_name_and_class, add_entity_table_name,
  add_additional_sql_create_table_statement_options_for_entity,
}
use lrzwasnla.Annotations.Entity.Decorators.{entity, given, with_options, with_table_name}

nearest-put :
    {V : Type 0} (d : Dict V) (k : String) (v : V) (names : List String)
    → is_defined (nearest (λ name. at (put d k v) name) names)
      ≡ is_defined (nearest (λ name. at d name) names) || any (λ name. k === name) names
unfolding nearest
nearest-put d k v [] = refl
nearest-put d k v (name ∷ rest) = ground (arith, at-put d k name v, nearest-put d k v rest)

-- The name of the table and the options leave the classes alone.
with_options-class_map :
    (table options : Option String) (r : EntityAnnotationContainer) (name : String)
    → (with_options (with_table_name r name table) name options).entity_name_to_class_map
      ≡ r.entity_name_to_class_map
unfolding add_entity_table_name add_additional_sql_create_table_statement_options_for_entity
with_options-class_map none none r name = refl
with_options-class_map none (some o) r name = refl
with_options-class_map (some t) none r name = refl
with_options-class_map (some t) (some o) r name = refl

-- Behind `@Entity` a class is an entity if it was one, or if the class of the decorator is on its
-- prototype chain.
pub is_entity-entity :
    (reference options : Option String) (r registered : EntityAnnotationContainer) (c d : Class)
    → entity reference options r c ≡ ok registered
    → is_entity registered d ≡ is_entity r d || any (λ name. c.name === name) (prototypes d)
unfolding entity is_entity add_entity_name_and_class
is_entity-entity reference options r registered c d h =
    let added =
      with_options-class_map (given reference) (given options)
        (add_entity_name_and_class r c.name c) c.name in
    let step = nearest-put r.entity_name_to_class_map c.name c (prototypes d) in ground arith
