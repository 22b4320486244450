-- ===== src/Hooks/Laws.antt =====
-- What hooks may refuse, and what they leave in the namespace of the call.
use lrzwasnla.Common.{◌≡◌, refl, ◌↔◌, true, false, none, some, List, [], ◌∷◌, ◌++◌, Text, arith}
use lrzwasnla.Common.Exec.{Result, >>=-eq-ok, ok, err, is_ok}
use lrzwasnla.Errors.{Failure}
use lrzwasnla.Transactions.{Session}
use lrzwasnla.Hooks.{
  HookResult, boolean, pair, object, nothing, PreHook, PostHook, lost_message, new_error,
  enter_post_hook, rethrow_as, call_pre_hook, judge_pre_hook, run_pre_hook, run_pre_hooks,
  try_execute_pre_hooks, call_post_hook, leave_post_hook, try_execute_post_hook,
}

-- A hook is satisfied by `true`, by `null`, by `undefined` and by an array with no error.
abbrev pub IsSatisfied : HookResult → Type 0
IsSatisfied (boolean b) = b ≡ true
IsSatisfied (pair e) = e ≡ none
IsSatisfied object = ⊥
IsSatisfied nothing = Unit

module _ {Arg : Type 0} (arg : Arg) where
  -- Every hook of the list runs, in order and each from the session that the one before it left,
  -- and each is satisfied.
  pub data Runs : List (PreHook Arg) → Session → Session → Type 0 where
    done : {s t : Session} → s ≡ t → Runs [] s t
    next :
        {hook : PreHook Arg} {hooks : List (PreHook Arg)} {s t u : Session} (result : HookResult)
        → call_pre_hook hook arg s ≡ (ok result, t)
        → IsSatisfied result
        → Runs hooks t u
        → Runs (hook ∷ hooks) s u

  judge-ok :
      (hook : PreHook Arg) (r : HookResult) (s t : Session)
      → judge_pre_hook hook r s ≡ (ok tt, t)
      → IsSatisfied r × (s ≡ t)
  unfolding judge_pre_hook
  judge-ok hook (boolean true) s t h = (refl, ground arith)
  judge-ok hook (boolean false) s t h = absurd (ground arith)
  judge-ok hook (pair none) s t h = (refl, ground arith)
  judge-ok hook (pair (some e)) s t h = absurd (ground arith)
  judge-ok hook object s t h = absurd (ground arith)
  judge-ok hook nothing s t h = (tt, ground arith)

  rethrown-ok :
      (message : Text) (p : Result Failure HookResult × Session) (r : HookResult) (t : Session)
      → rethrow_as message p ≡ (ok r, t)
      → p ≡ (ok r, t)
  rethrown-ok message (ok r', t') r t h = h
  rethrown-ok message (err f, t') r t h = absurd (ground arith)

  run_pre_hook-ok :
      (hook : PreHook Arg) (s t : Session)
      → run_pre_hook hook arg s ≡ (ok tt, t)
      → (r : HookResult) × (call_pre_hook hook arg s ≡ (ok r, t)) × IsSatisfied r
  unfolding run_pre_hook
  run_pre_hook-ok hook s t h =
      let (r, u, called, judged) =
        >>=-eq-ok (λ z. rethrow_as lost_message (call_pre_hook hook arg z)) (judge_pre_hook hook) s
          t tt h in
      let (satisfied, same) = judge-ok hook r u t judged in
      (r, rethrown-ok lost_message _ r t (rw same at called), satisfied)

  run_pre_hooks-Runs :
      (hooks : List (PreHook Arg)) (s t : Session)
      → run_pre_hooks hooks arg s ≡ (ok tt, t)
      → Runs hooks s t
  unfolding run_pre_hooks
  run_pre_hooks-Runs [] s t h = done (ground arith)
  run_pre_hooks-Runs (hook ∷ hooks) s t h =
      let (_, u, first, others) =
        >>=-eq-ok (run_pre_hook hook arg) (λ _. run_pre_hooks hooks arg) s t tt h in
      let (r, called, satisfied) = run_pre_hook-ok hook s u first in
      next r called satisfied (run_pre_hooks-Runs hooks u t others)

  satisfied-ok :
      (hook : PreHook Arg) (r : HookResult) (s : Session)
      → IsSatisfied r
      → judge_pre_hook hook r s ≡ (ok tt, s)
  unfolding judge_pre_hook
  satisfied-ok hook (boolean true) s h = refl
  satisfied-ok hook (boolean false) s h = absurd (ground arith)
  satisfied-ok hook (pair none) s h = refl
  satisfied-ok hook (pair (some e)) s h = absurd (ground arith)
  satisfied-ok hook object s h = absurd h
  satisfied-ok hook nothing s h = refl

  Runs-run_pre_hooks :
      {hooks : List (PreHook Arg)} {s t : Session}
      → Runs hooks s t
      → run_pre_hooks hooks arg s ≡ (ok tt, t)
  unfolding run_pre_hooks run_pre_hook
  Runs-run_pre_hooks (done e) = ground arith
  Runs-run_pre_hooks (next {hook} {t} r called satisfied runs) =
      ground (arith, called, satisfied-ok hook r t satisfied, Runs-run_pre_hooks runs)

  -- The pre-hooks of an operation let it go on exactly when each of them, run in order and without
  -- a user account in the namespace, is satisfied. The user account is then put back.
  pub try_execute_pre_hooks_iff :
      (hooks : List (PreHook Arg)) (s t : Session)
      → (try_execute_pre_hooks hooks arg s ≡ (ok tt, t)) ↔ (
          (u : Session) × Runs hooks (record s { user_account_id = none }) u
          × (t ≡ record u { user_account_id = s.user_account_id }))
  unfolding try_execute_pre_hooks
  try_execute_pre_hooks_iff hooks s t = (
    λ h.
        let s' : Session = record s { user_account_id = none } in
        (
          (run_pre_hooks hooks arg s').1,
          run_pre_hooks-Runs hooks s' (run_pre_hooks hooks arg s').1 (ground arith),
          ground arith,
        ),
    λ h. ground (arith, Runs-run_pre_hooks h.1, h.2),
  )

  run_pre_hooks-thrown :
      {before : List (PreHook Arg)} {s t : Session}
      → Runs before s t
      → (hook : PreHook Arg) (after : List (PreHook Arg)) (f : Failure) (u : Session)
      → call_pre_hook hook arg t ≡ (err f, u)
      → run_pre_hooks (before ++ hook ∷ after) arg s ≡ (err (new_error lost_message), u)
  unfolding run_pre_hooks run_pre_hook
  run_pre_hooks-thrown (done e) hook after f u h = ground (arith, e, h)
  run_pre_hooks-thrown (next {hook = first} {t = t} r called satisfied runs) hook after f u h =
      ground (
        arith,
        called,
        satisfied-ok first r t satisfied,
        run_pre_hooks-thrown runs hook after f u h,
      )

  -- The error of a pre-hook that throws is lost, wherever the hook stands behind hooks that are
  -- satisfied: the call reports one and the same message, and the hooks behind it do not run.
  pub thrown_message_is_lost :
      (before : List (PreHook Arg)) (hook : PreHook Arg) (after : List (PreHook Arg))
      (s t u : Session) (f : Failure)
      → Runs before (record s { user_account_id = none }) t
      → call_pre_hook hook arg t ≡ (err f, u)
      → try_execute_pre_hooks (before ++ hook ∷ after) arg s
        ≡ (err (new_error lost_message), record u { user_account_id = s.user_account_id })
  unfolding try_execute_pre_hooks
  thrown_message_is_lost before hook after s t u f runs e =
      rw (run_pre_hooks-thrown runs hook after f u e) refl

  -- A post-hook that throws leaves the namespace as the hook left it: a hook that does not touch
  -- the user account leaves the call without one, and inside of a post-hook.
  thrown_post_hook_drops_user :
      (hook : PostHook Arg) (s : Session) (f : Failure) (t : Session)
      → call_post_hook hook arg (enter_post_hook s) ≡ (err f, t)
      → t.user_account_id ≡ none
      → t.is_inside_post_hook ≡ true
      → ((try_execute_post_hook hook arg s).1.user_account_id ≡ none)
        × ((try_execute_post_hook hook arg s).1.is_inside_post_hook ≡ true)
        × (is_ok (try_execute_post_hook hook arg s).0 ≡ false)
  unfolding try_execute_post_hook leave_post_hook
  thrown_post_hook_drops_user hook s f t e p q =
      (ground (arith, e), ground (arith, e), ground (arith, e))
