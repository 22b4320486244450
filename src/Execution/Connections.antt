-- ===== src/Execution/Connections.antt =====
-- Whether the connection of a service function's call goes back to the pool.
use lrzwasnla.Common.{
  ◌≡◌, refl, ap, ◌∙◌, ℕ, suc, ◌-◌, String, Bool, true, false, Option, none, default_to,
  if◌then◌else◌, arith,
}
use lrzwasnla.Common.Exec.{Result, ok, err, Exec, is_ok, pure, continue, ◌>>=◌, ◌>>◌}
use lrzwasnla.Errors.{Failure, BackkError}
use lrzwasnla.Transactions.{
  Session, ErrorOr, try_reserve_db_connection_from_pool, try_release_db_connection_back_to_pool,
}
use lrzwasnla.Execution.{Call, Step, Service, Microservice, Request, MemoryCache}
use lrzwasnla.Execution.Requests.{requested}
use lrzwasnla.Execution.Values.{Json}
use lrzwasnla.Execution.Accounts.{
  resolve_user_account_or_tenant_id, resolve_own_id, resolve_id_of_subject, resolve_id_of_issuer,
  ask_for_id, keep_user_account_id, field_name_of_own_resources, set_user_account_id,
}
use lrzwasnla.Execution.Functions.{
  enter_namespace, leave_namespace, call_function, check_transactions, with_data_store,
  call_with_connection, call_in_namespace,
}

-- The connections that are out, whether a multiple execution holds one, and whether the call does.
abbrev pub pool : Session → ℕ × (Bool × Bool)
pool t = (t.borrowed, (t.multiple_connection, t.connection))

-- `f` gives back the connections that it takes and leaves that of the call in its namespace,
-- whether it returns or throws.
pub record Balanced {W A : Type 0} (f : Exec Failure (Session × W) A) : Type 0 where
  pub at : (x : Session × W) → pool (f x).1.0 ≡ pool x.0

record Steady {W A : Type 0} (f : Step W A) : Type 0 where
  pub at : (s : Call W) → pool (f s).1.session ≡ pool s.session

module _ {W A B : Type 0} where
  Steady-continue :
      (c : Result Failure A) (g : A → Step W B) (s : Call W)
      → ((a : A) → Steady (g a))
      → pool (continue c g s).1.session ≡ pool s.session
  Steady-continue (ok a) g s k = (k a).at s
  Steady-continue (err e) g s k = refl

  Steady->>= :
      (f : Step W A) (g : A → Step W B) → Steady f → ((a : A) → Steady (g a)) → Steady (f >>= g)
  Steady->>= f g kf kg = record { at = λ s. Steady-continue (f s).0 g (f s).1 kg ∙ kf.at s }

-- The session that a connection from the pool leaves.
abbrev pub reserved : Session → Session
reserved t = record t {
  connection = true;
  local_transaction = false;
  global_transaction = false;
  borrowed = suc t.borrowed;
}

module _ {W : Type 0} (m : Microservice W) (r : Request) where
  -- The account's identifier is found, and the service function is called.
  abbrev pub work : Service → Option Service → Json → Step W (ErrorOr Json)
  work service user_service argument =
      set_user_account_id m r service user_service >> call_function m r argument

module _ {W : Type 0} (m : Microservice W) (r : Request)
    (functions : (service function : String) (argument : Json)
      → Balanced (m.service_function service function argument))
    (subjects : (subject : String) → Balanced (m.get_id_by_subject subject))
    (issuers : (issuer : String) → Balanced (m.get_id_by_issuer issuer)) where
  Steady-ask_for_id :
      (cache : MemoryCache W) (key : String)
      (ask : String → Exec Failure (Session × W) (ErrorOr Json))
      → Balanced (ask key)
      → Steady (ask_for_id m r cache key ask)
  unfolding ask_for_id
  Steady-ask_for_id cache key ask k = record {
    at = λ s. ground (arith, k.at (s.session, s.outside));
  }

  Steady-resolve_own_id :
      (cache : MemoryCache W) (holder : Option String) → Steady (resolve_own_id m r cache holder)
  unfolding resolve_own_id
  Steady-resolve_own_id cache holder = record { at = λ s. ground arith }

  Steady-resolve_id_of_subject :
      (user_service : Option Service) (subject : String)
      → Steady (resolve_id_of_subject m r user_service subject)
  unfolding resolve_id_of_subject
  Steady-resolve_id_of_subject user_service subject = record {
    at = λ s. ground (
      arith,
      (Steady-ask_for_id m.subject_to_user_account_id_cache subject m.get_id_by_subject
            (subjects subject)).at
          s,
    );
  }

  Steady-resolve_id_of_issuer : (issuer : String) → Steady (resolve_id_of_issuer m r issuer)
  unfolding resolve_id_of_issuer
  Steady-resolve_id_of_issuer issuer = record {
    at = λ s. ground (
      arith,
      (Steady-ask_for_id m.issuer_to_tenant_id_cache issuer m.get_id_by_issuer (issuers issuer)).at
          s,
    );
  }

  Steady-resolve :
      (service : Service) (user_service : Option Service)
      → Steady (resolve_user_account_or_tenant_id m r service user_service)
  unfolding resolve_user_account_or_tenant_id
  Steady-resolve service user_service = record {
    at = λ s. ground (
      arith,
      (Steady-resolve_own_id m.subject_to_user_account_id_cache s.subject).at s,
      (Steady-resolve_own_id m.issuer_to_tenant_id_cache s.issuer).at s,
      (Steady-resolve_id_of_subject user_service (default_to "" s.subject)).at s,
      (Steady-resolve_id_of_issuer (default_to "" s.issuer)).at s,
    );
  }

  Steady-keep_user_account_id :
      (service : Service) (user_service : Option Service) (field_name : Option String)
      → Steady (keep_user_account_id m r service user_service field_name)
  unfolding keep_user_account_id
  Steady-keep_user_account_id service user_service field_name =
      Steady->>= (resolve_user_account_or_tenant_id m r service user_service) _
        (Steady-resolve service user_service) (λ id. record { at = λ s. ground arith })

  Steady-set_user_account_id :
      (service : Service) (user_service : Option Service)
      → Steady (set_user_account_id m r service user_service)
  unfolding set_user_account_id field_name_of_own_resources
  Steady-set_user_account_id service user_service =
      Steady->>= (field_name_of_own_resources m r) _ (record { at = λ s. refl })
        (λ field_name. record {
          at = λ s.
              ground (arith, (Steady-keep_user_account_id service user_service field_name).at s);
        })

  Steady-call_function : (argument : Json) → Steady (call_function m r argument)
  unfolding call_function
  Steady-call_function argument = record {
    at = λ s.
        ground
          (arith, (functions s.service_name (requested m r).1 argument).at (s.session, s.outside));
  }

  Steady-check_transactions : (service : Service) → Steady (check_transactions m r service)
  unfolding check_transactions
  Steady-check_transactions service = record { at = λ s. ground arith }

  module _ (service : Service) (user_service : Option Service) (argument : Json) (n : ℕ)
      (stores : service.has_data_store ≡ true) where
    abbrev rest : ErrorOr Json → Step W (Option BackkError)
    rest outcome = do
      with_data_store m r service (try_release_db_connection_back_to_pool m.database)
      check_transactions m r service
      pure outcome.1

    released :
        (outcome : ErrorOr Json) (u : Call W)
        → pool u.session ≡ (suc n, (false, true))
        → (rest outcome u).1.session.borrowed ≡ n
    unfolding with_data_store try_release_db_connection_back_to_pool
    released outcome u h =
        let after = record u {
          session = record u.session {
            connection = false;
            borrowed = if u.session.connection then u.session.borrowed - 1 else u.session.borrowed;
          };
        } in
        ground (arith, stores, h, (Steady-check_transactions service).at after)

    after_call :
        (c : Result Failure (ErrorOr Json)) (u : Call W)
        → pool u.session ≡ (suc n, (false, true))
        → (continue c rest u).1.session.borrowed ≡ (if is_ok c then n else suc n)
    after_call (ok outcome) u h = released outcome u h
    after_call (err e) u h = ap (λ p. p.0) h

    after_set :
        (c : Result Failure (Unit {0})) (u : Call W)
        → pool u.session ≡ (suc n, (false, true))
        → (continue c (λ _. call_function m r argument >>= rest) u).1.session.borrowed
          ≡ (if is_ok (continue c (λ _. call_function m r argument) u).0 then n else suc n)
    after_set (ok _) u h =
        after_call (call_function m r argument u).0 (call_function m r argument u).1
          ((Steady-call_function argument).at u ∙ h)
    after_set (err e) u h = ap (λ p. p.0) h

  reserve_eq :
      (service : Service) (s : Call W)
      → service.has_data_store ≡ true
      → s.session.multiple_connection ≡ false
      → m.database.exhausted s.session.borrowed ≡ none
      → with_data_store m r service (try_reserve_db_connection_from_pool m.database) s
        ≡ (ok tt, record s { session = reserved s.session })
  unfolding with_data_store try_reserve_db_connection_from_pool
  reserve_eq service s h single free = ground arith

  -- Where the functions of services give back the connections that they take and leave that of the
  -- call in its namespace, the connection that a call takes from the pool goes back exactly when
  -- the account's identifier was found and the service function returned: one that throws leaves
  -- its connection out.
  pub borrowed-call_in_namespace :
      (service : Service) (user_service : Option Service) (argument : Json) (s : Call W)
      → service.has_data_store ≡ true
      → s.session.multiple_connection ≡ false
      → m.database.exhausted s.session.borrowed ≡ none
      → (call_in_namespace m r service user_service argument s).1.session.borrowed ≡ (
          if is_ok
            (work m r service user_service argument
              (record s { session = reserved (enter_namespace m r s.session) })).0
          then s.session.borrowed
          else suc s.session.borrowed)
  unfolding call_in_namespace call_with_connection enter_namespace leave_namespace
  borrowed-call_in_namespace service user_service argument s h single free =
      let entered = record s { session = enter_namespace m r s.session } in
      rw (reserve_eq service entered h single free, call_with_connection)
        (after_set service user_service argument s.session.borrowed h
          (set_user_account_id m r service user_service
            (record entered { session = reserved entered.session })).0
          (set_user_account_id m r service user_service
            (record entered { session = reserved entered.session })).1
          ((Steady-set_user_account_id service user_service).at
              (record entered { session = reserved entered.session })
            ∙ ap (λ b. (suc s.session.borrowed, (b, true))) single))
