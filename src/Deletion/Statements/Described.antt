-- ===== src/Deletion/Statements/Described.antt =====
-- Which deletions belong to an entity, without the order of evaluation of deleteEntityById.ts: one
-- for each joined table that may be written, one for each association table of the entity, and one
-- for its own table.
use lrzwasnla.Common.{
  Bool, true, false, not, map, filter, List, [], ◌∷◌, ◌++◌, Text, codes, ℤ, ◌≡◌, refl, ap,
  to_lower_case, starts_with,
}
use lrzwasnla.Transactions.{number}
use lrzwasnla.Deletion.Statements.{
  ManyToManyRelationTableSpec, EntityJoinSpec, EntityContainer, Dialect, Statement, delete_rows,
  deletions,
}

module _ (dialect : Dialect) (entity_name : Text) (id : ℤ) where
  -- DELETE FROM schema.table_name WHERE field = $1, for the identifier
  abbrev pub deletion : (table_name field : Text) → Statement
  deletion table_name field = (
    codes "DELETE FROM "
        ++ ((to_lower_case dialect.schema ++ (codes "." ++ to_lower_case table_name))
            ++ (codes " WHERE " ++ (field ++ (codes " = " ++ dialect.get_value_placeholder 1)))),
    number id ∷ [],
  )

  pub data Joined : List EntityJoinSpec → List Statement → Type 0 where
    no_joins : Joined [] []
    written :
        {join : EntityJoinSpec} {joins : List EntityJoinSpec} {qs : List Statement}
        → join.is_readonly ≡ false
        → Joined joins qs
        → Joined (join ∷ joins) (
            deletion join.sub_entity_table_name
              (to_lower_case join.sub_entity_foreign_id_field_name)
            ∷ qs)
    readonly :
        {join : EntityJoinSpec} {joins : List EntityJoinSpec} {qs : List Statement}
        → join.is_readonly ≡ true
        → Joined joins qs
        → Joined (join ∷ joins) qs

  pub data Associated : List ManyToManyRelationTableSpec → List Statement → Type 0 where
    no_specs : Associated [] []
    own :
        {spec : ManyToManyRelationTableSpec} {specs : List ManyToManyRelationTableSpec}
        {qs : List Statement}
        → starts_with spec.association_table_name (entity_name ++ codes "_") ≡ true
        → Associated specs qs
        → Associated (spec ∷ specs) (
            deletion spec.association_table_name (to_lower_case spec.entity_foreign_id_field_name)
            ∷ qs)
    foreign :
        {spec : ManyToManyRelationTableSpec} {specs : List ManyToManyRelationTableSpec}
        {qs : List Statement}
        → starts_with spec.association_table_name (entity_name ++ codes "_") ≡ false
        → Associated specs qs
        → Associated (spec ∷ specs) qs

  -- An entity that is deleted as a part of another keeps its own row.
  pub data Itself : (is_recursive : Bool) → List Statement → Type 0 where
    kept : Itself true []
    deleted : Itself false (
        deletion entity_name (
          (to_lower_case dialect.schema ++ (codes "." ++ to_lower_case entity_name))
          ++ codes "._id")
        ∷ [])

  pub record Describes (container : EntityContainer) (is_recursive : Bool) (qs : List Statement)
      : Type 0 where
    pub joined : List Statement
    pub associated : List Statement
    pub itself : List Statement
    pub of_joins : Joined (container.joins_of entity_name) joined
    pub of_specs : Associated container.many_to_many_relation_table_specs associated
    pub of_entity : Itself is_recursive itself
    pub together : qs ≡ joined ++ (associated ++ itself)

  Joined-deletions :
      {joins : List EntityJoinSpec} {qs : List Statement}
      → Joined joins qs
      → map
          (λ join.
            delete_rows dialect join.sub_entity_table_name
              (to_lower_case join.sub_entity_foreign_id_field_name)
              id)
          (filter (λ join. not join.is_readonly) joins)
        ≡ qs
  Joined-deletions no_joins = refl
  Joined-deletions (written {join} e js) = rw e (
      ap
        (λ qs.
          deletion join.sub_entity_table_name (to_lower_case join.sub_entity_foreign_id_field_name)
          ∷ qs)
        (Joined-deletions js))
  Joined-deletions (readonly e js) = rw e (Joined-deletions js)

  Associated-deletions :
      {specs : List ManyToManyRelationTableSpec} {qs : List Statement}
      → Associated specs qs
      → map
          (λ spec.
            delete_rows dialect spec.association_table_name
              (to_lower_case spec.entity_foreign_id_field_name)
              id)
          (filter
            (λ spec. starts_with spec.association_table_name (entity_name ++ codes "_"))
            specs)
        ≡ qs
  Associated-deletions no_specs = refl
  Associated-deletions (own {spec} {specs} e ss) =
      rw (map, filter, e)
        (ap
          (λ qs.
            deletion spec.association_table_name (to_lower_case spec.entity_foreign_id_field_name)
            ∷ qs)
          (Associated-deletions ss))
  Associated-deletions (foreign e ss) = rw (map, filter, e) (Associated-deletions ss)

  Itself-deletions :
      {is_recursive : Bool} {qs : List Statement}
      → Itself is_recursive qs
      → (elim is_recursive [
        | true ↦ []
        | false ↦
            delete_rows dialect entity_name
              ((to_lower_case dialect.schema ++ (codes "." ++ to_lower_case entity_name))
                ++ codes "._id")
              id
            ∷ []
      ])
        ≡ qs
  Itself-deletions kept = refl
  Itself-deletions deleted = refl

  -- The code sends these deletions, for each entity, and no other.
  pub deletions-Describes :
      (container : EntityContainer) (is_recursive : Bool) (qs : List Statement)
      → Describes container is_recursive qs
      → deletions dialect container entity_name is_recursive id ≡ qs
  unfolding deletions
  deletions-Describes container is_recursive qs d =
      rw
        (
          Joined-deletions d.of_joins,
          Associated-deletions d.of_specs,
          Itself-deletions d.of_entity,
          d.together,
        )
        refl
