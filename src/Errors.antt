-- ===== src/Errors.antt =====
-- errors/: how errors are written as messages and read back.
pub mod Messages
pub mod RoundTrip
pub mod Tests
use lrzwasnla.Common.{
  ℕ, String, Bool, false, ◌&&◌, ◌||◌, Option, none, some, List, [], ◌∷◌, ◌++◌, Text, codes, take,
  drop, starts_with, split, join, trim, ℤ, pos, show, show_ℤ, parse_int, default_to, if◌then◌else◌,
  ◌==◌, ◌===◌,
}

-- an `errorCode`, a string or a number
pub data ErrorCode : Type 0 where
  text : Text → ErrorCode
  number : ℤ → ErrorCode

-- types/BackkError.ts
pub record BackkError : Type 0 where
  pub status_code : ℤ
  pub message : Text
  pub error_code : Option ErrorCode
  pub stack_trace : Option Text

-- types/ErrorDefinition.ts
pub record ErrorDefinition : Type 0 where
  pub error_code : ErrorCode
  pub message : Text
  pub status_code : ℤ

-- an `Error` of the language
pub record Error : Type 0 where
  pub message : Text
  pub stack : Option Text

-- What is thrown.
pub data Failure : Type 0 where
  backk : BackkError → Failure
  plain : Error → Failure

-- `process.env`
abbrev pub Environment : Type 0
Environment = String → Option String

abbrev pub is_set_to : Option String → String → Bool
is_set_to none value = false
is_set_to (some s) value = s === value

abbrev pub internal_server_error : ℕ
internal_server_error = 500

abbrev pub error_code_prefix : Text
error_code_prefix = codes "Error code "

-- the text of a code in a message
abbrev pub show_code : Option ErrorCode → Text
show_code none = codes "undefined"
show_code (some (text t)) = t
show_code (some (number n)) = show_ℤ n

abbrev is_internal : ℤ → Bool
is_internal (pos n) = n == internal_server_error
is_internal _ = false

-- `const [errorCodeStr, ...errorMessageParts] = message.split(':')`
abbrev read_code : List Text → Option ErrorCode × Text
read_code [] = (none, [])
read_code (first ∷ parts) = (some (text (drop 11 first)), trim (join parts (codes ":")))

-- The message behind a status code and its colon, whole where there is none.
abbrev without_status : Option ℤ → Text → Text
without_status none message = message
without_status (some _) message = drop 4 message

unfoldable pub create_backk_error_from_error : Environment → Error → BackkError
create_backk_error_from_error env error =
    let parsed = parse_int (take 3 error.message) in
    let status_code = default_to (pos internal_server_error) parsed in
    let message = without_status parsed error.message in
    let (error_code, message') =
      if starts_with message error_code_prefix
      then read_code (split message b':')
      else (none, message) in
    record {
      status_code = status_code;
      message = message';
      error_code = error_code;
      stack_trace =
          if (is_set_to (env "LOG_LEVEL") "DEBUG" || is_set_to (env "NODE_ENV") "development")
            && is_internal status_code
          then error.stack
          else none;
    }

unfoldable pub create_error_message_with_status_code : Text → ℤ → Text
create_error_message_with_status_code error_message status_code =
    show_ℤ status_code ++ (codes ":" ++ error_message)

-- The stack is that of the place where the error is made.
unfoldable pub create_error_from_error_code_message_and_status : Option Text → BackkError → Error
create_error_from_error_code_message_and_status stack e = record {
  message =
      show_ℤ e.status_code
      ++ (codes ":Error code " ++ (show_code e.error_code ++ (codes ":" ++ e.message)));
  stack = stack;
}

unfoldable pub create_backk_error_from_error_code_message_and_status :
    Environment → Option Text → BackkError → BackkError
create_backk_error_from_error_code_message_and_status env stack e =
    create_backk_error_from_error env (record {
      message =
          show_ℤ e.status_code
          ++ (codes ":Error code " ++ (show_code e.error_code ++ (codes ":" ++ e.message)));
      stack = stack;
    })

unfoldable pub create_backk_error_from_error_message_and_status_code :
    Environment → Option Text → Text → ℤ → BackkError
create_backk_error_from_error_message_and_status_code env stack error_message status_code =
    create_backk_error_from_error env (record {
      message = create_error_message_with_status_code error_message status_code;
      stack = stack;
    })

unfoldable pub create_internal_server_error : Text → BackkError
create_internal_server_error error_message = record {
  status_code = pos internal_server_error;
  message = error_message;
  error_code = none;
  stack_trace = none;
}

unfoldable pub empty_error : BackkError
empty_error = record {
  status_code = pos 500;
  message = codes "Empty error";
  error_code = none;
  stack_trace = none;
}
