-- ===== src/Deletion/ById.antt =====
-- datastore/sql/operations/dml/deleteEntityById.ts. `get_entity_by_id` is the lookup of the entity,
-- which the hooks are given; it answers the entity or an error.
pub mod Laws
use lrzwasnla.Common.{
  Bool, true, false, ◌&&◌, Option, none, some, List, ◌++◌, Text, codes, ℤ, parse_decimal,
  is_defined,
}
use lrzwasnla.Common.Exec.{Result, ok, err, Exec, pure, throw, ◌>>=◌, ◌>>◌}
use lrzwasnla.Errors.{
  Failure, backk, plain, BackkError, Environment, create_backk_error_from_error,
  create_error_from_error_code_message_and_status,
}
use lrzwasnla.Errors.Messages.{invalid_argument}
use lrzwasnla.Transactions.{Session, Database}
use lrzwasnla.Hooks.{PreHook, PostHook, try_execute_pre_hooks, try_execute_post_hook}
use lrzwasnla.Authorization.{is_truthy}
use lrzwasnla.Deletion.Brackets.{inside_local_transaction}
use lrzwasnla.Deletion.Statements.{EntityContainer, Dialect, deletions, execute_all}

-- `isBackkError(error) ? error : createBackkErrorFromError(error)`
abbrev pub as_backk_error : Environment → Failure → BackkError
as_backk_error env (backk e) = e
as_backk_error env (plain e) = create_backk_error_from_error env e

-- Whether the user in the namespace has to own the entity.
abbrev pub is_owned : Session → Bool
is_owned s = is_truthy s.user_account_id_field_name && is_defined s.user_account_id

module _ {Entity : Type 0} (db : Database) (env : Environment) (stack : Option Text)
    (dialect : Dialect) (container : EntityContainer)
    (get_entity_by_id : Text → Exec Failure Session (Result BackkError Entity)) where
  found : Result BackkError Entity → Exec Failure Session Entity
  found (ok entity) = pure entity
  found (err error) = throw (backk error)

  -- The entity is looked up if there are hooks before the deletion or an owner to be checked.
  check_entity : Text → Option (List (PreHook Entity)) → Bool → Exec Failure Session (Option Entity)
  check_entity id (some hooks) owned = do
    entity ← get_entity_by_id id >>= found
    try_execute_pre_hooks hooks entity
    pure (some entity)
  check_entity id none true = do entity ← get_entity_by_id id >>= found; pure (some entity)
  check_entity id none false = pure none

  delete_rows_of : Text → Bool → Option ℤ → Exec Failure Session (Unit {0})
  delete_rows_of entity_name is_recursive (some id) =
      execute_all db (deletions dialect container entity_name is_recursive id)
  delete_rows_of entity_name is_recursive none = throw (
      plain (
        create_error_from_error_code_message_and_status stack (record invalid_argument {
          message = invalid_argument.message ++ codes "_id: must be a numeric id";
        })))

  call_post_hook_if_any :
      Option (PostHook (Option Entity)) → Option Entity → Exec Failure Session (Unit {0})
  call_post_hook_if_any none entity = pure tt
  call_post_hook_if_any (some hook) entity = try_execute_post_hook hook entity

  pub delete_work :
      Text
      → Text
      → Option (List (PreHook Entity))
      → Option (PostHook (Option Entity))
      → Bool
      → Exec Failure Session (Unit {0})
  delete_work id entity_name entity_pre_hooks post_hook is_recursive s =
      (do
        entity ← check_entity id entity_pre_hooks (is_owned s)
        delete_rows_of entity_name is_recursive (parse_decimal id)
        call_post_hook_if_any post_hook entity)
        s

  pub delete_entity_by_id :
      Text
      → Text
      → Option (List (PreHook Entity))
      → Option (PostHook (Option Entity))
      → Bool
      → Exec Failure Session (Option BackkError)
  delete_entity_by_id id entity_name entity_pre_hooks post_hook is_recursive =
      inside_local_transaction db (as_backk_error env)
        (delete_work id entity_name entity_pre_hooks post_hook is_recursive)
