-- ===== src/Transactions/Laws.antt =====
-- What a transaction sends, what it returns, and what it leaves in the namespaces.
use lrzwasnla.Common.{
  ◌≡◌, true, false, Option, none, some, [], ◌∷◌, ◌++◌, arith, inl, inr, ◌↔◌, Option-cases,
}
use lrzwasnla.Common.Exec.{ok, Exec, >>=-eq-ok}
use lrzwasnla.Errors.{Failure, Error, BackkError, Environment, create_backk_error_from_error}
use lrzwasnla.Transactions.{
  Query, begin, commit, rollback, Session, Database, ErrorOr, send, try_begin_transaction,
  try_commit_transaction, try_rollback_transaction, execute_inside_transaction, finish_transaction,
  after_begin, accepted,
}
use lrzwasnla.Transactions.Local.{try_start_local_transaction_if_needed}

-- The query that ends a transaction whose `executable` gave that error.
abbrev pub ending : Option BackkError → Query
ending none = commit
ending (some _) = rollback

-- The session in which the `executable` of a transaction starts.
abbrev pub started : Session → Session
started s = record s { global_transaction = true; sent = s.sent ++ begin ∷ [] }

-- The session after the query that ended a transaction.
abbrev pub ended : Query → Session → Session
ended q t = record t { global_transaction = false; sent = t.sent ++ q ∷ [] }

module _ {A : Type 0} (db : Database) (env : Environment)
    (executable : Exec Failure Session (ErrorOr A)) (s : Session) where
  -- A transaction that the database lets begin sends BEGIN, then what `executable` sends, then
  -- COMMIT if that reported no error and ROLLBACK if it did.
  sent-execute_inside_transaction :
      (t : Session) (outcome : ErrorOr A)
      → s.multiple_global_transaction ≡ false
      → db.refuses s.sent begin ≡ none
      → executable (started s) ≡ (ok outcome, t)
      → (execute_inside_transaction db env executable s).1.sent ≡ t.sent ++ ending outcome.1 ∷ []
  unfolding execute_inside_transaction try_begin_transaction try_commit_transaction
      try_rollback_transaction send
  sent-execute_inside_transaction t (result, none) m b e =
      elim (Option-cases (db.refuses t.sent commit)) [ inl _ ↦ ground arith | inr _ ↦ ground arith ]
  sent-execute_inside_transaction t (result, some error) m b e = ground arith

  committed_result :
      (result : Option A) (u t : Session) (outcome : ErrorOr A)
      → finish_transaction db env outcome t ≡ (ok (result, none), u)
      → (outcome ≡ (result, none)) × (db.refuses t.sent commit ≡ none) × (u ≡ ended commit t)
  unfolding finish_transaction try_commit_transaction try_rollback_transaction send
  committed_result result u t (x, none) h = elim (Option-cases (db.refuses t.sent commit)) [
    | inl _ ↦ ground arith
    | inr _ ↦ ground arith
  ]
  committed_result result u t (x, some e) h = absurd (ground arith)

  returned_result :
      (result : Option A) (u : Session)
      → s.multiple_global_transaction ≡ false
      → execute_inside_transaction db env executable s ≡ (ok (result, none), u)
      → (t : Session) × (db.refuses s.sent begin ≡ none)
        × (executable (started s) ≡ (ok (result, none), t))
        × (db.refuses t.sent commit ≡ none)
        × (u ≡ ended commit t)
  unfolding execute_inside_transaction try_begin_transaction send after_begin
  returned_result result u m h = elim (Option-cases (db.refuses s.sent begin)) [
    | inl b ↦
        let (outcome, t, ran, finished) =
          >>=-eq-ok executable (finish_transaction db env) (started s) u (result, none)
            (ground (arith, b)) in
        let (same, accepted, over) = committed_result result u t outcome finished in
        (t, b, rw same at ran, accepted, over)
    | inr b ↦ absurd (ground (arith, b.1))
  ]

  -- A transaction returns a result and no error exactly when the database let it begin,
  -- `executable` returned that result and no error, and the database accepted the COMMIT; it then
  -- is over.
  pub execute_inside_transaction_iff :
      (result : Option A) (u : Session)
      → s.multiple_global_transaction ≡ false
      → (execute_inside_transaction db env executable s ≡ (ok (result, none), u)) ↔ (
          (t : Session) × (db.refuses s.sent begin ≡ none)
          × (executable (started s) ≡ (ok (result, none), t))
          × (db.refuses t.sent commit ≡ none)
          × (u ≡ ended commit t))
  unfolding execute_inside_transaction try_begin_transaction try_commit_transaction
      try_rollback_transaction send
  execute_inside_transaction_iff result u m =
      (λ h. returned_result result u m h, λ h. ground (arith, h.1, h.2, h.3, h.4))

  -- A database that refuses BEGIN keeps `executable` from running, and its error is returned; but
  -- the namespace still says that a transaction is open, so that no local transaction is started
  -- after it, and nothing is sent for one.
  pub refused_begin_stays_open :
      (e : Error)
      → s.multiple_global_transaction ≡ false
      → db.refuses s.sent begin ≡ some e
      → (execute_inside_transaction db env executable s
          ≡ (ok (none, some (create_backk_error_from_error env e)), started s))
        × (try_start_local_transaction_if_needed db (started s) ≡ (ok false, started s))
  unfolding execute_inside_transaction try_begin_transaction send
      try_start_local_transaction_if_needed
  refused_begin_stays_open e m b = (ground arith, ground arith)
