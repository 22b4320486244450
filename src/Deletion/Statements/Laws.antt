-- ===== src/Deletion/Statements/Laws.antt =====
-- What is sent, and thrown, when several statements are sent at once.
use mathlib.Core.List.{append_assoc, append-nil}
use lrzwasnla.Common.{
  ℕ, String, ◌≡◌, refl, sym, ◌↔◌, Bool, true, Option, none, List, [], ◌∷◌, ◌++◌, map, arith,
}
use lrzwasnla.Common.Exec.{is_ok}
use lrzwasnla.Transactions.{Query, Session, Database, send, execute_sql_or_throw}
use lrzwasnla.Deletion.Statements.{Statement, to_query, execute_all}

-- What a session says of transactions and of its user.
abbrev pub standing : Session → Bool × Bool × Bool × ℕ × Option String × Option String
standing s = (
  s.multiple_global_transaction, s.global_transaction, s.local_transaction,
  s.db_local_transaction_count, s.user_account_id, s.user_account_id_field_name,
)

module _ (db : Database) where
  -- The database accepts each of the statements after those before it.
  abbrev pub Accepts : List Query → List Statement → Type 0
  Accepts before [] = Unit
  Accepts before (q ∷ qs) =
      (db.refuses before (to_query q) ≡ none) × Accepts (before ++ to_query q ∷ []) qs

  sent-execute_sql_or_throw :
      (q : Statement) (s : Session)
      → (execute_sql_or_throw db q.0 q.1 s).1.sent ≡ s.sent ++ to_query q ∷ []
  unfolding execute_sql_or_throw send
  sent-execute_sql_or_throw q s = ground arith

  is_ok-execute_sql_or_throw_iff :
      (q : Statement) (s : Session)
      → (is_ok (execute_sql_or_throw db q.0 q.1 s).0 ≡ true)
        ↔ (db.refuses s.sent (to_query q) ≡ none)
  unfolding execute_sql_or_throw send
  is_ok-execute_sql_or_throw_iff q s = (λ h. ground arith, λ h. ground arith)

  -- The statements that are sent at once are all sent, in their order, whether one of them is
  -- refused or not.
  pub sent-execute_all :
      (qs : List Statement) (s : Session) → (execute_all db qs s).1.sent ≡ s.sent ++ map to_query qs
  unfolding execute_all
  sent-execute_all [] s = sym (append-nil s.sent)
  sent-execute_all (q ∷ qs) s = ground (
    arith,
    sent-execute_all qs (execute_sql_or_throw db q.0 q.1 s).1,
    sent-execute_sql_or_throw q s,
    append_assoc s.sent (to_query q ∷ []) (map to_query qs),
  )

  pub standing-execute_all :
      (qs : List Statement) (s : Session) → standing (execute_all db qs s).1 ≡ standing s
  unfolding execute_all execute_sql_or_throw send
  standing-execute_all [] s = refl
  standing-execute_all (q ∷ qs) s =
      ground (arith, standing-execute_all qs (execute_sql_or_throw db q.0 q.1 s).1)

  -- They succeed exactly when the database accepts each of them.
  pub execute_all_iff :
      (qs : List Statement) (s : Session)
      → (is_ok (execute_all db qs s).0 ≡ true) ↔ Accepts s.sent qs
  unfolding execute_all
  execute_all_iff [] s = (λ h. tt, λ h. refl)
  execute_all_iff (q ∷ qs) s =
      let later = execute_all_iff qs (execute_sql_or_throw db q.0 q.1 s).1 in
      let now = is_ok-execute_sql_or_throw_iff q s in
      let e = sent-execute_sql_or_throw q s in
      (
        λ h. (now.0 (ground arith), rw (← e) (later.0 (ground arith))),
        λ h. ground (arith, now.1 h.0, later.1 (rw e h.1)),
      )
