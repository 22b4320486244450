-- ===== src/Hooks/Tests.antt =====
-- Hooks that count, refuse and throw.
use lrzwasnla.Common.{◌≡◌, refl, ◌↔◌, true, false, none, some, [], ◌∷◌, pos}
use lrzwasnla.Common.Exec.{ok, err}
use lrzwasnla.Errors.{Failure, plain, create_error_message_with_status_code}
use lrzwasnla.Transactions.{Session}
use lrzwasnla.Transactions.Tests.{idle, lost}
use lrzwasnla.Hooks.{
  PreHook, boolean, lost_message, new_error, call_pre_hook, pre_hook_message, run_pre_hooks,
  run_pre_hook, judge_pre_hook, try_execute_pre_hooks,
}
use lrzwasnla.Hooks.Laws.{Runs, done, next, try_execute_pre_hooks_iff, thrown_message_is_lost}

abbrev with_user : Session
with_user = record idle { user_account_id = some "7" }

abbrev agreeing : PreHook (Unit {0})
agreeing = record {
  execute_pre_hook_if = none;
  should_succeed_or_be_true = λ u s. (ok (boolean true), s);
  error = none;
}

abbrev pub refusing : PreHook (Unit {0})
refusing = record {
  execute_pre_hook_if = none;
  should_succeed_or_be_true = λ u s. (ok (boolean false), s);
  error = none;
}

abbrev pub refusal : Failure
refusal = new_error (create_error_message_with_status_code pre_hook_message (pos 400))

-- A hook that returns `false`.
pub try_execute_pre_hooks-refusing :
    (s : Session) → try_execute_pre_hooks (refusing ∷ []) tt s ≡ (err refusal, s)
unfolding try_execute_pre_hooks run_pre_hooks run_pre_hook call_pre_hook judge_pre_hook
try_execute_pre_hooks-refusing s = refl

abbrev throwing : PreHook (Unit {0})
throwing = record {
  execute_pre_hook_if = none;
  should_succeed_or_be_true = λ u s. (err (plain lost), s);
  error = none;
}

try_execute_pre_hooks_iff_example :
    (try_execute_pre_hooks (agreeing ∷ agreeing ∷ []) tt with_user ≡ (ok tt, with_user)) ↔ (
      (u : Session) × Runs tt (agreeing ∷ agreeing ∷ []) idle u
      × (with_user ≡ record u { user_account_id = some "7" }))
try_execute_pre_hooks_iff_example =
    try_execute_pre_hooks_iff tt (agreeing ∷ agreeing ∷ []) with_user with_user

thrown_message_is_lost_example :
    try_execute_pre_hooks (agreeing ∷ throwing ∷ refusing ∷ []) tt with_user
    ≡ (err (new_error lost_message), with_user)
unfolding call_pre_hook
thrown_message_is_lost_example =
    thrown_message_is_lost tt (agreeing ∷ []) throwing (refusing ∷ []) with_user idle idle
      (plain lost) (next (boolean true) refl refl (done refl)) refl
