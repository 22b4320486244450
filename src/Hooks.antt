-- ===== src/Hooks.antt =====
-- datastore/hooks/: functions of the user that run before and after a data store operation, in
-- the session of the call. A hook given as a bare function is one with no condition and no error.
pub mod Laws
pub mod Tests
use lrzwasnla.Common.{
  ℕ, String, Bool, true, false, Option, none, some, List, [], ◌∷◌, ◌++◌, Text, codes, ℤ, pos,
  if◌then◌else◌,
}
use lrzwasnla.Common.Exec.{Result, ok, err, Exec, pure, throw, lift, modify, ◌>>=◌, ◌>>◌}
use lrzwasnla.Errors.{
  Failure, backk, plain, Error, BackkError, ErrorDefinition, show_code,
  create_error_message_with_status_code,
}
use lrzwasnla.Transactions.{Session, to_error}

-- What a hook returns, as far as it is looked at: a boolean, `[…, error]`, some other object, or
-- `null` or `undefined`.
pub data HookResult : Type 0 where
  boolean : Bool → HookResult
  pair : Option BackkError → HookResult
  object nothing : HookResult

-- What a condition returns: a boolean, or `[…, error]` with the truth of its first part.
pub data Condition : Type 0 where
  boolean : Bool → Condition
  pair : Bool → Option BackkError → Condition

abbrev Run : Type 0 → Type 0
Run = Exec Failure Session

pub record PreHook (Arg : Type 0) : Type 0 where
  pub execute_pre_hook_if : Option (Arg → Run Condition)
  pub should_succeed_or_be_true : Arg → Run HookResult
  pub error : Option ErrorDefinition

pub record PostHook (Arg : Type 0) : Type 0 where
  pub execute_post_hook_if : Option (Arg → Result Failure Bool)
  pub should_succeed_or_be_true : Arg → Run HookResult
  pub error : Option ErrorDefinition

abbrev new_error : Text → Failure
new_error message = plain (record { message = message; stack = none })

-- The error of a hook that was not satisfied.
abbrev unsatisfied : Text → Option ErrorDefinition → Failure
unsatisfied default_message none =
    new_error (create_error_message_with_status_code default_message (pos 400))
unsatisfied default_message (some e) = new_error (
    create_error_message_with_status_code
      (codes "Error code " ++ (show_code (some e.error_code) ++ (codes ":" ++ e.message)))
      e.status_code)

abbrev pub pre_hook_message : Text
pre_hook_message = codes "Pre-hook evaluated to false without specific error message"

abbrev pub post_hook_message : Text
post_hook_message = codes "Post-hook evaluated to false without specific error message"

-- `createErrorMessageWithStatusCode(error.errorMessage, 500)`: neither an `Error` nor a
-- `BackkError` has an `errorMessage`.
abbrev pub lost_message : Text
lost_message = codes "500:undefined"

-- What is thrown inside of a `try` is thrown on as another error.
abbrev rethrow_as : Text → Result Failure HookResult × Session → Result Failure HookResult × Session
rethrow_as message (ok r, s) = (ok r, s)
rethrow_as message (err f, s) = (err (new_error message), s)

abbrev pub enter_post_hook : Session → Session
enter_post_hook s = record s { user_account_id = none; is_inside_post_hook = true }

module _ {Arg : Type 0} where
  call_if : PreHook Arg → Arg → Condition → Run HookResult
  call_if hook arg (boolean true) = hook.should_succeed_or_be_true arg
  call_if hook arg (boolean false) = pure nothing
  call_if hook arg (pair _ (some e)) = throw (backk e)
  call_if hook arg (pair true none) = hook.should_succeed_or_be_true arg
  call_if hook arg (pair false none) = pure nothing

  pub call_pre_hook : PreHook Arg → Arg → Run HookResult
  unfolding call_if
  call_pre_hook hook arg = elim hook.execute_pre_hook_if [
    | none ↦ hook.should_succeed_or_be_true arg
    | some condition ↦ condition arg >>= call_if hook arg
  ]

  judge_pre_hook : PreHook Arg → HookResult → Run (Unit {0})
  judge_pre_hook hook (pair (some e)) = throw (unsatisfied pre_hook_message hook.error)
  judge_pre_hook hook (boolean false) = throw (unsatisfied pre_hook_message hook.error)
  judge_pre_hook hook object = throw (unsatisfied pre_hook_message hook.error)
  judge_pre_hook hook _ = pure tt

  run_pre_hook : PreHook Arg → Arg → Run (Unit {0})
  unfolding call_pre_hook
  run_pre_hook hook arg =
      (λ s. rethrow_as lost_message (call_pre_hook hook arg s)) >>= judge_pre_hook hook

  run_pre_hooks : List (PreHook Arg) → Arg → Run (Unit {0})
  run_pre_hooks [] arg = pure tt
  run_pre_hooks (hook ∷ hooks) arg = run_pre_hook hook arg >> run_pre_hooks hooks arg

  -- tryExecutePreHooks with no argument, tryExecuteEntityPreHooks with the entity's data
  pub try_execute_pre_hooks : List (PreHook Arg) → Arg → Run (Unit {0})
  try_execute_pre_hooks hooks arg s =
      let r = run_pre_hooks hooks arg (record s { user_account_id = none }) in
      (r.0, record r.1 { user_account_id = s.user_account_id })

  pub call_post_hook : PostHook Arg → Arg → Run HookResult
  call_post_hook hook arg = elim hook.execute_post_hook_if [
    | none ↦ hook.should_succeed_or_be_true arg
    | some condition ↦ lift (condition arg) >>= λ passed.
        if passed then hook.should_succeed_or_be_true arg else pure nothing
  ]

  judge_post_hook : PostHook Arg → HookResult → Run (Unit {0})
  judge_post_hook hook (pair (some e)) = throw (backk e)
  judge_post_hook hook (boolean false) = throw (unsatisfied post_hook_message hook.error)
  judge_post_hook hook _ = pure tt

  -- The namespace is put back behind the `try`, and not in a `finally`.
  leave_post_hook :
      PostHook Arg
      → (caught : Failure → Text) → Option String
      → Result Failure HookResult
      → Run (Unit {0})
  leave_post_hook hook caught user_account_id (err f) = throw (new_error (caught f))
  leave_post_hook hook caught user_account_id (ok r) =
      modify (λ s. record s { is_inside_post_hook = false; user_account_id = user_account_id })
      >> judge_post_hook hook r

  pub try_execute_post_hook : PostHook Arg → Arg → Run (Unit {0})
  try_execute_post_hook hook arg s =
      let r = call_post_hook hook arg (enter_post_hook s) in
      leave_post_hook hook
        (λ f. create_error_message_with_status_code (to_error f).message (pos 500))
        s.user_account_id r.0 r.1

  pub try_execute_entities_post_hook : PostHook Arg → Arg → Run (Unit {0})
  try_execute_entities_post_hook hook arg s =
      let r = call_post_hook hook arg (enter_post_hook s) in
      leave_post_hook hook (λ f. lost_message) s.user_account_id r.0 r.1
