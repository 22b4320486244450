-- ===== src/Deletion/Committed.antt =====
-- When an operation whose work ends with statements that are sent at once is committed.
use lrzwasnla.Common.{◌≡◌, refl, ◌↔◌, true, none, List, ◌++◌, map, arith}
use lrzwasnla.Common.Exec.{ok, Exec}
use lrzwasnla.Errors.{Failure, BackkError}
use lrzwasnla.Transactions.{begin, commit, Session, Database}
use lrzwasnla.Transactions.Local.{is_outside_transaction}
use lrzwasnla.Deletion.Brackets.{inside_local_transaction}
use lrzwasnla.Deletion.Brackets.Laws.{opened, closed, inside_local_transaction_iff}
use lrzwasnla.Deletion.Statements.{Statement, to_query, execute_all}
use lrzwasnla.Deletion.Statements.Laws.{Accepts, sent-execute_all, execute_all_iff}

module _ (db : Database) (to_backk_error : Failure → BackkError)
    (work : Exec Failure Session (Unit {0})) (s : Session) where
  -- Where the work comes down to statements sent from a session `t`, the operation reports no error
  -- exactly when the database accepts BEGIN, those statements, and COMMIT behind them.
  pub ends_with_statements_iff :
      (qs : List Statement) (t : Session)
      → is_outside_transaction s ≡ true
      → work (opened s) ≡ execute_all db qs t
      → ((inside_local_transaction db to_backk_error work s).0 ≡ ok none) ↔ (
          (db.refuses s.sent begin ≡ none)
          × Accepts db t.sent qs
          × (db.refuses (t.sent ++ map to_query qs) commit ≡ none))
  ends_with_statements_iff qs t o runs =
      let bracket = inside_local_transaction_iff db to_backk_error work s in
      let sent = sent-execute_all db qs t in
      let all = execute_all_iff db qs t in
      let last = (execute_all db qs t).1 in
      (
        λ h.
            let r =
              (bracket (inside_local_transaction db to_backk_error work s).1 o).0
                (ground (arith, h)) in
            (r.1, all.0 (ground (arith, runs, r.2)), ground (arith, runs, sent, r.2, r.3)),
        λ h.
            let done =
              (bracket (closed commit last) o).1
                (last, h.0, ground (arith, runs, all.1 h.1), ground (arith, sent, h.2), refl) in
            ground (arith, done),
      )
