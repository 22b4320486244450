-- ===== src/Deletion/Tests.antt =====
-- The deletion of a user with addresses, logins that are read only, and groups.
use lrzwasnla.Common.{
  ◌≡◌, refl, ◌↔◌, true, false, none, List, [], ◌∷◌, ◌++◌, map, Text, codes, pos, parse_decimal,
}
use lrzwasnla.Common.Exec.{Result, ok, Exec, pure, throw}
use lrzwasnla.Errors.{Failure, plain, BackkError, Environment}
use lrzwasnla.Transactions.{begin, commit, number, Session}
use lrzwasnla.Transactions.Tests.{idle, willing, lost}
use lrzwasnla.Deletion.Brackets.{inside_local_transaction}
use lrzwasnla.Deletion.Brackets.Laws.{opened, closed, inside_local_transaction_iff}
use lrzwasnla.Deletion.Statements.{EntityContainer, Dialect, Statement, to_query, deletions}
use lrzwasnla.Deletion.Statements.Described.{
  Describes, no_joins, written, readonly, no_specs, own, foreign, deleted,
}
use lrzwasnla.Deletion.Statements.Laws.{Accepts}
use lrzwasnla.Deletion.ById.{as_backk_error, delete_entity_by_id}
use lrzwasnla.Deletion.ById.Laws.{delete_entity_by_id_iff}

abbrev pub container : EntityContainer
container = record {
  joins_of = λ name.
      record {
        sub_entity_table_name = codes "Address";
        sub_entity_foreign_id_field_name = codes "userId";
        is_readonly = false;
      }
      ∷ record {
        sub_entity_table_name = codes "Login";
        sub_entity_foreign_id_field_name = codes "userId";
        is_readonly = true;
      }
      ∷ [];
  many_to_many_relation_table_specs =
      record {
        association_table_name = codes "User_Group";
        entity_foreign_id_field_name = codes "userId";
      }
      ∷ record {
        association_table_name = codes "Group_Role";
        entity_foreign_id_field_name = codes "groupId";
      }
      ∷ [];
}

abbrev pub dialect : Dialect
dialect = record { schema = codes "Public"; get_value_placeholder = λ n. codes "$1" }

abbrev statements : List Statement
statements =
    (codes "DELETE FROM public.address WHERE userid = $1", number (pos 5) ∷ [])
    ∷ (codes "DELETE FROM public.user_group WHERE userid = $1", number (pos 5) ∷ [])
    ∷ (codes "DELETE FROM public.user WHERE public.user._id = $1", number (pos 5) ∷ [])
    ∷ []

deletions-user : deletions dialect container (codes "User") false (pos 5) ≡ statements
unfolding deletions
deletions-user = refl

abbrev pub env : Environment
env name = none

abbrev no_work : Exec Failure Session (Unit {0})
no_work = pure tt

abbrev failing : Exec Failure Session (Unit {0})
failing = throw (plain lost)

inside_local_transaction_iff_example :
    (inside_local_transaction willing (as_backk_error env) no_work idle
      ≡ (ok none, closed commit (opened idle)))
    ↔ ((t : Session) × (willing.refuses [] begin ≡ none)
        × (no_work (opened idle) ≡ (ok tt, t))
        × (willing.refuses t.sent commit ≡ none)
        × (closed commit (opened idle) ≡ closed commit t))
inside_local_transaction_iff_example =
    inside_local_transaction_iff willing (as_backk_error env) no_work idle
      (closed commit (opened idle)) refl

abbrev pub lookup : Text → Exec Failure Session (Result BackkError (Unit {0}))
lookup id = pure (ok tt)

abbrev described : Describes dialect (codes "User") (pos 5) container false statements
described = record {
  joined = _;
  associated = _;
  itself = _;
  of_joins = written refl (readonly refl no_joins);
  of_specs = own refl (foreign refl no_specs);
  of_entity = deleted;
  together = refl;
}

delete_entity_by_id_iff_example :
    ((delete_entity_by_id willing env none dialect container lookup
        (codes "5")
        (codes "User")
        none
        none
        false
        idle).0
      ≡ ok none)
    ↔ ((willing.refuses [] begin ≡ none)
        × Accepts willing (begin ∷ []) statements
        × (willing.refuses (begin ∷ [] ++ map to_query statements) commit ≡ none))
unfolding parse_decimal
delete_entity_by_id_iff_example =
    delete_entity_by_id_iff willing env none dialect container lookup (codes "5") (codes "User")
      false idle (pos 5) refl refl refl statements described
