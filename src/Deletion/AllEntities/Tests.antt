-- ===== src/Deletion/AllEntities/Tests.antt =====
-- The deletion of all users, whose addresses are a class of their own.
use lrzwasnla.Common.{◌≡◌, refl, ◌↔◌, false, none, some, [], ◌∷◌, ◌++◌, map, codes}
use lrzwasnla.Common.Exec.{ok}
use lrzwasnla.Transactions.{begin, commit, text}
use lrzwasnla.Transactions.Tests.{idle, willing}
use lrzwasnla.Deletion.Tests.{container, dialect, env}
use lrzwasnla.Deletion.Statements.{to_query}
use lrzwasnla.Deletion.Statements.Laws.{Accepts}
use lrzwasnla.Deletion.AllEntities.{
  EntityType, EntityTypes, entity, end, more, all_deletions, delete_all_entities,
}
use lrzwasnla.Deletion.AllEntities.Laws.{part_statements, delete_all_entities_iff}

abbrev addresses : EntityTypes
addresses = more (entity (codes "Address") end) end

abbrev users : EntityType
users = entity (codes "User") addresses

-- The own table of a user with an account is restricted to that account.
all_deletions-users :
    all_deletions dialect container (some ("userid", "7")) (codes "User") false
    ≡ (codes "DELETE FROM public.address", [])
      ∷ (codes "DELETE FROM public.user_group", [])
      ∷ (codes "DELETE FROM public.user WHERE public.user.userid = $1", text "7" ∷ [])
      ∷ []
unfolding all_deletions
all_deletions-users = refl

delete_all_entities_iff_example :
    let before = begin ∷ [] ++ map to_query (part_statements dialect container none addresses) in
    let own = all_deletions dialect container none (codes "User") false in
    ((delete_all_entities dialect container willing env users false idle).0 ≡ ok none) ↔ (
      (willing.refuses [] begin ≡ none)
      × Accepts willing before own
      × (willing.refuses (before ++ map to_query own) commit ≡ none))
delete_all_entities_iff_example =
    delete_all_entities_iff dialect container willing env (codes "User") addresses idle refl
