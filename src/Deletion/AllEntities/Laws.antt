-- ===== src/Deletion/AllEntities/Laws.antt =====
-- What the deletion of all entities of a class sends, and which refusals it reports.
use mathlib.Core.List.{append_assoc, append-nil}
use lrzwasnla.Common.{
  ◌≡◌, refl, sym, ◌↔◌, Bool, true, false, none, List, [], ◌∷◌, ◌++◌, map, Text, arith, ap, ◌∙◌,
}
use lrzwasnla.Common.Exec.{ok, is_ok, Exec, ◌>>◌}
use lrzwasnla.Errors.{Failure, Environment}
use lrzwasnla.Transactions.{Query, begin, commit, Session, Database}
use lrzwasnla.Transactions.Local.{is_outside_transaction}
use lrzwasnla.Deletion.Brackets.Laws.{opened, inside_local_transaction-nested}
use lrzwasnla.Deletion.Statements.{EntityContainer, Dialect, Statement, to_query, execute_all}
use lrzwasnla.Deletion.Statements.Laws.{Accepts, standing, sent-execute_all, standing-execute_all}
use lrzwasnla.Deletion.Committed.{ends_with_statements_iff}
use lrzwasnla.Deletion.AllEntities.{
  EntityType, EntityTypes, entity, end, more, Owner, owner, all_deletions, caught,
  delete_rows_of_class, delete_all_entities, delete_all_parts,
}

module _ (dialect : Dialect) (container : EntityContainer) (who : Owner) where
  -- Every statement of a tree of classes, those of the properties first.
  mutual
    pub tree_statements : EntityType → Bool → List Statement
    tree_statements (entity name parts) is_recursive =
        part_statements parts ++ all_deletions dialect container who name is_recursive

    pub part_statements : EntityTypes → List Statement
    part_statements end = []
    part_statements (more part parts) = tree_statements part true ++ part_statements parts

outside-standing :
    (s t : Session) → standing t ≡ standing s → is_outside_transaction t ≡ is_outside_transaction s
outside-standing s t e = ground (arith, e)

owner-standing : (s t : Session) → standing t ≡ standing s → owner t ≡ owner s
owner-standing s t e = ground (arith, e)

map-append : (xs ys : List Statement) → map to_query (xs ++ ys) ≡ map to_query xs ++ map to_query ys
map-append [] ys = refl
map-append (x ∷ xs) ys = ap (λ r. to_query x ∷ r) (map-append xs ys)

appended :
    (before sent sent' : List Query) (xs ys : List Statement)
    → sent ≡ before ++ map to_query xs
    → sent' ≡ sent ++ map to_query ys
    → sent' ≡ before ++ map to_query (xs ++ ys)
appended before sent sent' xs ys e e' =
    rw (e', e, append_assoc before (map to_query xs) (map to_query ys), map-append xs ys)

-- A step that returned is followed by the next one.
followed :
    {A : Type 0} (m : Exec Failure Session A) (n : Exec Failure Session (Unit {0})) (s : Session)
    → is_ok (m s).0 ≡ true
    → (m >> n) s ≡ n (m s).1
followed m n s h = ground arith

module _ (dialect : Dialect) (container : EntityContainer) (db : Database) (env : Environment) where
  delete_rows-sent :
      (name : Text) (r : Bool) (s t : Session)
      → standing t ≡ standing s
      → ((delete_rows_of_class dialect container db env name r t).1.sent
          ≡ t.sent ++ map to_query (all_deletions dialect container (owner s) name r))
        × (standing (delete_rows_of_class dialect container db env name r t).1 ≡ standing s)
  unfolding delete_rows_of_class
  delete_rows-sent name r s t e =
      let qs = all_deletions dialect container (owner t) name r in
      let who = owner-standing s t e in
      (rw (← who) (sent-execute_all db qs t), standing-execute_all db qs t ∙ e)

  is_outside_transaction-local :
      (s : Session) → s.local_transaction ≡ true → is_outside_transaction s ≡ false
  is_outside_transaction-local s e = ground (arith, e)

  delete_rows_of_class-owner :
      (name : Text) (who : Owner) (t : Session)
      → owner t ≡ who
      → delete_rows_of_class dialect container db env name false t
        ≡ execute_all db (all_deletions dialect container who name false) t
  unfolding delete_rows_of_class
  delete_rows_of_class-owner name who t e = rw e

  mutual
    unfolding delete_all_entities tree_statements

    entities-sent :
        (e : EntityType) (r : Bool) (s : Session)
        → is_outside_transaction s ≡ false
        → ((delete_all_entities dialect container db env e r s).1.sent
            ≡ s.sent ++ map to_query (tree_statements dialect container (owner s) e r))
          × (standing (delete_all_entities dialect container db env e r s).1 ≡ standing s)
          × (is_ok (delete_all_entities dialect container db env e r s).0 ≡ true)
    entities-sent (entity name parts) r s o =
        let work =
          delete_all_parts dialect container db env parts
          >> delete_rows_of_class dialect container db env name r in
        let nested =
          inside_local_transaction-nested db (caught dialect container db env) work s o in
        let (sent, stands, returned) = parts-sent parts s o in
        let t = (delete_all_parts dialect container db env parts s).1 in
        let (own_sent, own_stands) = delete_rows-sent name r s t stands in
        let own =
          followed (delete_all_parts dialect container db env parts)
            (delete_rows_of_class dialect container db env name r) s (ground (arith, returned)) in
        let same = ap (λ p. p.1) nested ∙ ap (λ p. p.1) own in
        let last = (delete_rows_of_class dialect container db env name r t).1 in
        (
          ap (λ u. u.sent) same
              ∙ appended s.sent t.sent last.sent (part_statements dialect container (owner s) parts)
                  (all_deletions dialect container (owner s) name r) sent own_sent,
          ap standing same ∙ own_stands,
          ground (arith, nested),
        )

    parts-sent :
        (parts : EntityTypes) (s : Session)
        → is_outside_transaction s ≡ false
        → ((delete_all_parts dialect container db env parts s).1.sent
            ≡ s.sent ++ map to_query (part_statements dialect container (owner s) parts))
          × (standing (delete_all_parts dialect container db env parts s).1 ≡ standing s)
          × ((delete_all_parts dialect container db env parts s).0 ≡ ok tt)
    parts-sent end s o = (sym (append-nil s.sent), refl, refl)
    parts-sent (more part parts) s o =
        let (sent, stands, returned) = entities-sent part true s o in
        let t = (delete_all_entities dialect container db env part true s).1 in
        let (sent', stands', returned') = parts-sent parts t (outside-standing s t stands ∙ o) in
        let next =
          followed (delete_all_entities dialect container db env part true)
            (delete_all_parts dialect container db env parts) s returned in
        let who = owner-standing s t stands in
        (
          ap (λ p. p.1.sent) next
              ∙ appended s.sent t.sent (delete_all_parts dialect container db env parts t).1.sent
                  (tree_statements dialect container (owner s) part true)
                  (part_statements dialect container (owner s) parts) sent (rw who at sent'),
          ap (λ p. standing p.1) next ∙ (stands' ∙ stands),
          ap (λ p. p.0) next ∙ returned',
        )

  -- Inside of a transaction the deletion of all entities of a class sends every statement for the
  -- classes of its properties and then those for the class, whichever of them are refused.
  sent-delete_all_entities :
      (e : EntityType) (r : Bool) (s : Session)
      → is_outside_transaction s ≡ false
      → (delete_all_entities dialect container db env e r s).1.sent
        ≡ s.sent ++ map to_query (tree_statements dialect container (owner s) e r)
  sent-delete_all_entities e r s o = (entities-sent e r s o).0

  -- Outside of any transaction the deletion of all entities of a class is committed, and reports no
  -- error, exactly when the database accepts BEGIN, the statements for the class itself, and COMMIT
  -- behind them: a refusal of a statement for the classes of its properties is not reported.
  pub delete_all_entities_iff :
      (name : Text) (parts : EntityTypes) (s : Session)
      → is_outside_transaction s ≡ true
      → let before =
          (s.sent ++ begin ∷ [])
          ++ map to_query (part_statements dialect container (owner s) parts) in
        let own = all_deletions dialect container (owner s) name false in
        ((delete_all_entities dialect container db env (entity name parts) false s).0 ≡ ok none) ↔ (
          (db.refuses s.sent begin ≡ none)
          × Accepts db before own
          × (db.refuses (before ++ map to_query own) commit ≡ none))
  unfolding delete_all_entities
  delete_all_entities_iff name parts s o =
      let before = opened s in
      let (sent, stands, returned) =
        parts-sent parts before (is_outside_transaction-local before refl) in
      let t = (delete_all_parts dialect container db env parts before).1 in
      let next =
        followed (delete_all_parts dialect container db env parts)
          (delete_rows_of_class dialect container db env name false) before
          (ground (arith, returned)) in
      rw (← sent) (
        ends_with_statements_iff db (caught dialect container db env)
          (delete_all_parts dialect container db env parts
            >> delete_rows_of_class dialect container db env name false)
          s (all_deletions dialect container (owner s) name false) t o
          (next ∙ delete_rows_of_class-owner name (owner s) t (owner-standing before t stands)))
