-- ===== src/Deletion/Brackets/Laws.antt =====
-- What the local transaction around an operation sends, returns and leaves behind.
use lrzwasnla.Common.{
  suc, ◌≡◌, true, false, Option, none, some, [], ◌∷◌, ◌++◌, arith, ◌↔◌, Option-cases, inl, inr,
}
use lrzwasnla.Common.Exec.{Result, ok, err, Exec, Result-cases}
use lrzwasnla.Errors.{Failure, BackkError}
use lrzwasnla.Transactions.{
  Query, begin, commit, rollback, Session, Database, send, try_begin_transaction,
  try_commit_transaction, try_rollback_transaction,
}
use lrzwasnla.Transactions.Local.{
  is_outside_transaction, try_start_local_transaction_if_needed,
  try_commit_local_transaction_if_needed, try_rollback_local_transaction_if_needed,
  cleanup_local_transaction_if_needed, start_local,
}
use lrzwasnla.Deletion.Brackets.{leave, inside_local_transaction}

-- The session in which the work inside of a new local transaction starts.
abbrev pub opened : Session → Session
opened s = record s {
  local_transaction = true;
  db_local_transaction_count = suc s.db_local_transaction_count;
  sent = s.sent ++ begin ∷ [];
}

-- The session after the query that ended a local transaction.
abbrev pub closed : Query → Session → Session
closed q t = record t { local_transaction = false; sent = t.sent ++ q ∷ [] }

-- What an operation returns for what its work returned or threw.
abbrev pub reply : (Failure → BackkError) → Result Failure (Unit {0}) → Option BackkError
reply to_backk_error (ok _) = none
reply to_backk_error (err f) = some (to_backk_error f)

module _ (db : Database) (to_backk_error : Failure → BackkError)
    (work : Exec Failure Session (Unit {0})) (s : Session) where
  committed_work :
      (u : Session)
      → is_outside_transaction s ≡ true
      → inside_local_transaction db to_backk_error work s ≡ (ok none, u)
      → (t : Session) × (db.refuses s.sent begin ≡ none)
        × (work (opened s) ≡ (ok tt, t))
        × (db.refuses t.sent commit ≡ none)
        × (u ≡ closed commit t)
  unfolding inside_local_transaction try_start_local_transaction_if_needed start_local leave
      try_commit_local_transaction_if_needed try_rollback_local_transaction_if_needed
      cleanup_local_transaction_if_needed try_begin_transaction try_commit_transaction
      try_rollback_transaction send
  committed_work u o h = elim (Option-cases (db.refuses s.sent begin)) [
    | inr (_, b) ↦ absurd (ground arith)
    | inl b ↦ elim (Result-cases (work (opened s)).0) [
      | inr (_, e) ↦ absurd (ground arith)
      | inl (_, e) ↦ elim (Option-cases (db.refuses (work (opened s)).1.sent commit)) [
        | inr (_, c) ↦ absurd (ground arith)
        | inl c ↦ ((work (opened s)).1, b, ground arith, c, ground arith)
      ]
    ]
  ]

  -- An operation outside of any transaction returns no error exactly when the database let its
  -- transaction begin, its work returned, and the database accepted the COMMIT.
  pub inside_local_transaction_iff :
      (u : Session)
      → is_outside_transaction s ≡ true
      → (inside_local_transaction db to_backk_error work s ≡ (ok none, u)) ↔ (
          (t : Session) × (db.refuses s.sent begin ≡ none)
          × (work (opened s) ≡ (ok tt, t))
          × (db.refuses t.sent commit ≡ none)
          × (u ≡ closed commit t))
  unfolding inside_local_transaction try_start_local_transaction_if_needed start_local leave
      try_commit_local_transaction_if_needed try_rollback_local_transaction_if_needed
      cleanup_local_transaction_if_needed try_begin_transaction try_commit_transaction
      try_rollback_transaction send
  inside_local_transaction_iff u o = (committed_work u o, λ h. ground (arith, h.1, h.2, h.3, h.4))

  -- The work of an operation outside of any transaction that throws is rolled back, and its error
  -- returned.
  pub inside_local_transaction-thrown :
      (f : Failure) (t : Session)
      → is_outside_transaction s ≡ true
      → db.refuses s.sent begin ≡ none
      → work (opened s) ≡ (err f, t)
      → inside_local_transaction db to_backk_error work s
        ≡ (ok (some (to_backk_error f)), closed rollback t)
  unfolding inside_local_transaction try_start_local_transaction_if_needed start_local leave
      try_rollback_local_transaction_if_needed cleanup_local_transaction_if_needed
      try_begin_transaction try_rollback_transaction send
  inside_local_transaction-thrown f t o b e = ground arith

  -- An operation inside of a transaction sends nothing but what its work sends, and leaves the
  -- session as its work leaves it: an error is returned, and nothing is rolled back.
  pub inside_local_transaction-nested :
      is_outside_transaction s ≡ false
      → inside_local_transaction db to_backk_error work s
        ≡ (ok (reply to_backk_error (work s).0), (work s).1)
  unfolding inside_local_transaction try_start_local_transaction_if_needed leave
      try_commit_local_transaction_if_needed try_rollback_local_transaction_if_needed
      cleanup_local_transaction_if_needed
  inside_local_transaction-nested o = ground arith

  -- After an operation outside of any transaction no local transaction is open, whatever its work
  -- and the database do.
  local_transaction-inside_local_transaction :
      is_outside_transaction s ≡ true
      → (inside_local_transaction db to_backk_error work s).1.local_transaction ≡ false
  unfolding inside_local_transaction try_start_local_transaction_if_needed start_local leave
      try_commit_local_transaction_if_needed try_rollback_local_transaction_if_needed
      cleanup_local_transaction_if_needed try_begin_transaction try_commit_transaction
      try_rollback_transaction send
  local_transaction-inside_local_transaction o = ground arith
