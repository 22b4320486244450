-- ===== src/Deletion/AllEntities.antt =====
-- datastore/sql/operations/dml/deleteAllEntities.ts. The class of an entity is given as the tree of
-- the entity classes that its properties have: the source does not come back from a cycle of them.
pub mod Laws
pub mod Tests
use lrzwasnla.Common.{
  String, Bool, true, false, not, Option, none, some, List, [], ◌∷◌, ◌++◌, map, filter, Text, codes,
  to_lower_case, starts_with, if◌then◌else◌,
}
use lrzwasnla.Common.Exec.{Exec, pure, ◌>>=◌, ◌>>◌}
use lrzwasnla.Errors.{Failure, BackkError, Environment, create_backk_error_from_error}
use lrzwasnla.Transactions.{Value, text, Session, Database, to_error}
use lrzwasnla.Authorization.{is_truthy}
use lrzwasnla.Deletion.Brackets.{inside_local_transaction}
use lrzwasnla.Deletion.Statements.{EntityContainer, Dialect, Statement, table, execute_all}

mutual
  -- A class with its name and the classes of its properties that are entities, in their order.
  pub data EntityType : Type 0 where
    entity : Text → EntityTypes → EntityType

  pub data EntityTypes : Type 0 where
    end : EntityTypes
    more : EntityType → EntityTypes → EntityTypes

-- The field and the value that select the rows of the user in the namespace.
abbrev pub Owner : Type 0
Owner = Option (String × String)

abbrev pub owner_of : Option String → Option String → Owner
owner_of (some field) (some id) = if is_truthy (some field) then some (field, id) else none
owner_of _ _ = none

abbrev pub owner : Session → Owner
owner s = owner_of s.user_account_id_field_name s.user_account_id

module _ (dialect : Dialect) (container : EntityContainer) where
  -- all rows of a table
  abbrev delete_table : Text → Statement
  delete_table name = (codes "DELETE FROM " ++ table dialect name, [])

  abbrev delete_own_table : Owner → Text → Statement
  delete_own_table none name = delete_table name
  delete_own_table (some (field, id)) name = (
    (delete_table name).0
        ++ (codes " WHERE "
            ++ (table dialect name
                ++ (codes "."
                    ++ (codes field ++ (codes " = " ++ dialect.get_value_placeholder 1))))),
    text id ∷ [],
  )

  -- What is sent for one class: its joined tables and its association tables as a whole, and its
  -- own table, for the user alone, unless it is a property of another class.
  unfoldable pub all_deletions :
      Owner → (entity_name : Text) → (is_recursive : Bool) → List Statement
  all_deletions who entity_name is_recursive =
      map (λ join. delete_table join.sub_entity_table_name)
        (filter (λ join. not join.is_readonly) (container.joins_of entity_name))
      ++ (map (λ spec. delete_table spec.association_table_name)
            (filter (λ spec. starts_with spec.association_table_name (entity_name ++ codes "_"))
              container.many_to_many_relation_table_specs)
          ++ (elim is_recursive [ true ↦ [] | false ↦ delete_own_table who entity_name ∷ [] ]))

  module _ (db : Database) (env : Environment) where
    -- `createBackkErrorFromError(error)` of what was caught
    abbrev pub caught : Failure → BackkError
    caught f = create_backk_error_from_error env (to_error f)

    -- The statements for the class itself, once those for its properties were sent.
    pub delete_rows_of_class : Text → Bool → Exec Failure Session (Unit {0})
    delete_rows_of_class name is_recursive s =
        execute_all db (all_deletions (owner s) name is_recursive) s

    mutual
      pub delete_all_entities : EntityType → Bool → Exec Failure Session (Option BackkError)
      delete_all_entities (entity name parts) is_recursive =
          inside_local_transaction db caught
            (delete_all_parts parts >> delete_rows_of_class name is_recursive)

      -- What is returned for a property, an error too, is dropped.
      pub delete_all_parts : EntityTypes → Exec Failure Session (Unit {0})
      delete_all_parts end = pure tt
      delete_all_parts (more part parts) = delete_all_entities part true >> delete_all_parts parts
