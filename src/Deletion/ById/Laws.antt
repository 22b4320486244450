-- ===== src/Deletion/ById/Laws.antt =====
-- When the deletion of one entity by its identifier succeeds, and what is sent when it does not.
use lrzwasnla.Common.{
  ◌≡◌, refl, ◌↔◌, Bool, true, false, Option, none, some, List, [], ◌∷◌, ◌++◌, map, Text, ℤ, arith,
  parse_decimal,
}
use lrzwasnla.Common.Exec.{Result, ok, err, Exec, continue}
use lrzwasnla.Errors.{Failure, backk, BackkError, Environment}
use lrzwasnla.Transactions.{begin, commit, rollback, Session, Database}
use lrzwasnla.Transactions.Local.{is_outside_transaction}
use lrzwasnla.Hooks.{PreHook, PostHook, try_execute_pre_hooks}
use lrzwasnla.Deletion.Brackets.Laws.{opened, closed, inside_local_transaction-thrown}
use lrzwasnla.Deletion.Statements.{
  EntityContainer, Dialect, Statement, to_query, deletions, execute_all,
}
use lrzwasnla.Deletion.Statements.Described.{Describes, deletions-Describes}
use lrzwasnla.Deletion.Statements.Laws.{Accepts}
use lrzwasnla.Deletion.Committed.{ends_with_statements_iff}
use lrzwasnla.Deletion.ById.{
  as_backk_error, is_owned, found, check_entity, delete_rows_of, call_post_hook_if_any, delete_work,
  delete_entity_by_id,
}

returned :
    {S : Type 0} (r : Result Failure (Unit {0}) × S) → continue r.0 (λ _ t. (ok tt, t)) r.1 ≡ r
returned (ok _, s) = refl
returned (err f, s) = refl

module _ {Entity : Type 0} (db : Database) (env : Environment) (stack : Option Text)
    (dialect : Dialect) (container : EntityContainer)
    (get_entity_by_id : Text → Exec Failure Session (Result BackkError Entity))
    (id entity_name : Text) (is_recursive : Bool) (s : Session) where
  delete_work-plain :
      (n : ℤ) (t : Session)
      → is_owned t ≡ false
      → parse_decimal id ≡ some n
      → delete_work db env stack dialect container get_entity_by_id id entity_name none none
          is_recursive t
        ≡ execute_all db (deletions dialect container entity_name is_recursive n) t
  unfolding delete_work check_entity delete_rows_of call_post_hook_if_any
  delete_work-plain n t o p = ground (
    arith,
    o,
    p,
    returned (execute_all db (deletions dialect container entity_name is_recursive n) t),
  )

  -- Without hooks and without an owner to be checked, the deletion of a numeric identifier outside
  -- of any transaction succeeds exactly when the database accepts BEGIN, each of the statements
  -- that belong to the entity, and COMMIT behind them. These are the deletions in each joined table
  -- that may be written, in each association table of the entity, and in its own table.
  pub delete_entity_by_id_iff :
      (n : ℤ)
      → is_outside_transaction s ≡ true
      → is_owned s ≡ false
      → parse_decimal id ≡ some n
      → (qs : List Statement) → Describes dialect entity_name n container is_recursive qs
      → let before = s.sent ++ begin ∷ [] in
        ((delete_entity_by_id db env stack dialect container get_entity_by_id id entity_name none
            none is_recursive s).0
          ≡ ok none)
        ↔ ((db.refuses s.sent begin ≡ none)
            × Accepts db before qs
            × (db.refuses (before ++ map to_query qs) commit ≡ none))
  unfolding delete_entity_by_id
  delete_entity_by_id_iff n o w p qs described =
      ends_with_statements_iff db (as_backk_error env)
        (delete_work db env stack dialect container get_entity_by_id id entity_name none none
          is_recursive)
        s qs (opened s) o
        (rw (← deletions-Describes dialect entity_name n container is_recursive qs described)
          (delete_work-plain n (opened s) w p))

  -- An entity that its hooks do not let go is not deleted: nothing is sent behind what the lookup
  -- and the hooks sent but ROLLBACK, and the error of the hooks is returned.
  delete_entity_by_id-refused :
      (hooks : List (PreHook Entity)) (post_hook : Option (PostHook (Option Entity)))
      (entity : Entity) (f : Failure) (t u : Session)
      → is_outside_transaction s ≡ true
      → db.refuses s.sent begin ≡ none
      → get_entity_by_id id (opened s) ≡ (ok (ok entity), t)
      → try_execute_pre_hooks hooks entity t ≡ (err f, u)
      → delete_entity_by_id db env stack dialect container get_entity_by_id id entity_name
          (some hooks)
          post_hook
          is_recursive
          s
        ≡ (ok (some (as_backk_error env f)), closed rollback u)
  unfolding delete_entity_by_id delete_work check_entity found
  delete_entity_by_id-refused hooks post_hook entity f t u o b g h =
      inside_local_transaction-thrown db (as_backk_error env)
        (delete_work db env stack dialect container get_entity_by_id id entity_name (some hooks)
          post_hook is_recursive)
        s f u o b (ground (arith, g, h))

  delete_work-missing :
      (hooks : Option (List (PreHook Entity))) (post_hook : Option (PostHook (Option Entity)))
      (e : BackkError) (u t : Session)
      → (hooks ≡ none → is_owned u ≡ true)
      → get_entity_by_id id u ≡ (ok (err e), t)
      → delete_work db env stack dialect container get_entity_by_id id entity_name hooks post_hook
          is_recursive u
        ≡ (err (backk e), t)
  unfolding delete_work check_entity found
  delete_work-missing (some hooks) post_hook e u t w g = ground (arith, g)
  delete_work-missing none post_hook e u t w g = ground (arith, g, w refl)

  -- An entity that is not found is not deleted, and the error of the lookup is returned.
  delete_entity_by_id-missing :
      (hooks : Option (List (PreHook Entity))) (post_hook : Option (PostHook (Option Entity)))
      (e : BackkError) (t : Session)
      → is_outside_transaction s ≡ true
      → db.refuses s.sent begin ≡ none
      → (hooks ≡ none → is_owned s ≡ true)
      → get_entity_by_id id (opened s) ≡ (ok (err e), t)
      → delete_entity_by_id db env stack dialect container get_entity_by_id id entity_name hooks
          post_hook is_recursive s
        ≡ (ok (some e), closed rollback t)
  unfolding delete_entity_by_id delete_work check_entity found
  delete_entity_by_id-missing hooks post_hook e t o b w g =
      inside_local_transaction-thrown db (as_backk_error env)
        (delete_work db env stack dialect container get_entity_by_id id entity_name hooks post_hook
          is_recursive)
        s (backk e) t o b (delete_work-missing hooks post_hook e (opened s) t w g)
