-- ===== src/Deletion/Statements.antt =====
-- The statements of the deletions, and how several are sent at once.
pub mod Described
pub mod Laws
use lrzwasnla.Common.{
  ℕ, Bool, true, false, not, List, [], ◌∷◌, ◌++◌, map, filter, Text, codes, ℤ, to_lower_case,
  starts_with,
}
use lrzwasnla.Common.Exec.{ok, err, Exec, pure}
use lrzwasnla.Errors.{Failure}
use lrzwasnla.Transactions.{
  Query, statement, Value, number, Session, Database, execute_sql_or_throw,
}

-- What the statements read of decorators/entity/entityAnnotationContainer.ts.
pub record ManyToManyRelationTableSpec : Type 0 where
  pub association_table_name : Text
  pub entity_foreign_id_field_name : Text

pub record EntityJoinSpec : Type 0 where
  pub sub_entity_table_name : Text
  pub sub_entity_foreign_id_field_name : Text
  pub is_readonly : Bool

pub record EntityContainer : Type 0 where
  -- the `entityNameToJoinsMap`, with no joins for a name that is missing
  pub joins_of : Text → List EntityJoinSpec
  pub many_to_many_relation_table_specs : List ManyToManyRelationTableSpec

-- What a statement needs to know of the data store.
pub record Dialect : Type 0 where
  pub schema : Text
  pub get_value_placeholder : ℕ → Text

-- A statement with the values that are bound in it.
abbrev pub Statement : Type 0
Statement = Text × List Value

abbrev pub to_query : Statement → Query
to_query (sql, values) = statement sql values

module _ (dialect : Dialect) where
  -- `${schema}.${name}`
  abbrev pub table : Text → Text
  table name = to_lower_case dialect.schema ++ (codes "." ++ to_lower_case name)

  -- a deletion of the rows of a table that have the identifier in a field
  abbrev pub delete_rows : (table_name field : Text) → ℤ → Statement
  delete_rows table_name field id = (
    codes "DELETE FROM "
        ++ (table table_name
            ++ (codes " WHERE " ++ (field ++ (codes " = " ++ dialect.get_value_placeholder 1)))),
    number id ∷ [],
  )

  -- What is sent for one entity: its joined tables, its association tables, and its own table unless
  -- it is deleted as a part of another entity.
  unfoldable pub deletions :
      EntityContainer → (entity_name : Text) → (is_recursive : Bool) → ℤ → List Statement
  deletions container entity_name is_recursive id =
      map
        (λ join.
          delete_rows join.sub_entity_table_name
            (to_lower_case join.sub_entity_foreign_id_field_name) id)
        (filter (λ join. not join.is_readonly) (container.joins_of entity_name))
      ++ (map
            (λ spec.
              delete_rows spec.association_table_name
                (to_lower_case spec.entity_foreign_id_field_name) id)
            (filter (λ spec. starts_with spec.association_table_name (entity_name ++ codes "_"))
              container.many_to_many_relation_table_specs)
          ++ (elim is_recursive [
            | true ↦ []
            | false ↦ delete_rows entity_name (table entity_name ++ codes "._id") id ∷ []
          ]))

-- `Promise.all`: the statements are sent one behind the other over the one connection, whether an
-- earlier one was refused or not, and the first refusal is thrown.
pub execute_all : Database → List Statement → Exec Failure Session (Unit {0})
execute_all db [] s = pure tt s
execute_all db (q ∷ qs) s =
    let first = execute_sql_or_throw db q.0 q.1 s in
    let rest = execute_all db qs first.1 in elim first.0 [ ok _ ↦ rest | err f ↦ (err f, rest.1) ]
