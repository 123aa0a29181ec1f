-- ===== src/Tools.antt =====
-- services/orchestrator/src/tools/types.ts: the results of the tools, their errors and the events of
-- a call. What each tool does alike (its three kinds of end) stands here once.
pub mod Bash
pub mod Calls
pub mod Commands
pub mod Transfers
pub mod Ends
pub mod Output
pub mod ReadFile
pub mod Registry
pub mod WriteFile
use mathlib.Core.Option
use minerva.Base.{
  ℕ, suc, String, Bool, true, false, Option, none, some, List, [], ◌∷◌, ◌++◌, ◌==◌, ◌||◌,
  if◌then◌else◌, truthy,
}
use minerva.Base.Integers.{ℤ, minus}
use minerva.Base.Text.{contains}
use minerva.Exec.{Result, ok, err, Exec, pure, ◌>>=◌, ◌>>◌}

pub data ToolErrorCode : Type 0 where
  file_not_found permission_denied command_failed : ToolErrorCode
  validation_error timeout cancelled unknown_error : ToolErrorCode

-- `details` stands as its text.
pub record ToolError : Type 0 where
  pub code : ToolErrorCode
  pub message : String
  pub details : Option String

-- `content` is the field `data`.
pub record ToolResult (A : Type 0) : Type 0 where
  pub success : Bool
  pub content : Option A
  pub error : Option ToolError

pub record ToolContext : Type 0 where
  pub workspace_id : String
  pub run_id : String
  pub user_id : String

pub data PartialType : Type 0 where
  stdout stderr progress : PartialType

-- The `result` of `emitEnd`: the result of the call where it is an error, else what the call gave.
pub data Shown (A : Type 0) : Type 0 where
  failure : ToolResult A → Shown A
  outcome : A → Shown A

-- The calls of a `ToolEventEmitter`, each with the call's id and the name of the tool. `P` is the
-- type of the arguments that `emitStart` shows.
pub data ToolEvent (P A : Type 0) : Type 0 where
  emit_start : String → String → P → ToolEvent P A
  emit_update : String → String → PartialType → String → ToolEvent P A
  emit_end : String → String → Shown A → Bool → ℤ → ToolEvent P A

-- A value that was thrown: its properties `code`, `message` and `details`, and `text`, which is the
-- message of an `Error` and `String(error)` for any other value.
pub record Thrown : Type 0 where
  pub code : Option String
  pub message : String
  pub details : Option String
  pub text : String

unfoldable pub create_success_result : {A : Type 0} → A → ToolResult A
create_success_result a = record { success = true; content = some a; error = none }

unfoldable pub create_error_result :
    {A : Type 0} → ToolErrorCode → String → Option String → ToolResult A
create_error_result code message details = record {
  success = false;
  content = none;
  error = some (record { code = code; message = message; details = details });
}

-- The codes with which an error passes as it is.
unfoldable pub known_code : Option String → Option ToolErrorCode
known_code none = none
known_code (some code) =
    if code == "FILE_NOT_FOUND"
    then some file_not_found
    else if code == "PERMISSION_DENIED"
    then some permission_denied
    else if code == "COMMAND_FAILED"
    then some command_failed
    else if code == "VALIDATION_ERROR"
    then some validation_error
    else if code == "TIMEOUT"
    then some timeout
    else if code == "CANCELLED"
    then some cancelled
    else none

unfoldable pub code_of_message : String → ToolErrorCode
code_of_message text =
    if contains text "not found" || contains text "ENOENT"
    then file_not_found
    else if contains text "permission" || contains text "EACCES"
    then permission_denied
    else if contains text "timeout" || contains text "ETIMEDOUT"
    then timeout
    else if contains text "cancelled" || contains text "abort"
    then cancelled
    else unknown_error

unfoldable pub map_error_to_tool_error : Thrown → ToolError
unfolding known_code code_of_message
map_error_to_tool_error error = elim (known_code error.code) [
  | none ↦ record { code = code_of_message error.text; message = error.text; details = none }
  | some code ↦ record { code = code; message = error.message; details = error.details }
]

-- What a call reads and writes: the sandbox, the events that it has emitted, and how often it has
-- read the clock.
pub record Session (S P A : Type 0) : Type 0 where
  pub sandbox : S
  pub events : List (ToolEvent P A)
  pub reads : ℕ

abbrev pub Act : Type 0 → Type 0 → Type 0 → Type 0 → Type 0
Act S P A B = Exec (Session S P A) Thrown B

-- `!context?.workspaceId`
abbrev pub workspace_of : Option ToolContext → Option String
workspace_of context = truthy (Option.map (λ c. c.workspace_id) context)

module _ {S P A : Type 0} where
  abbrev pub emit : ToolEvent P A → Act S P A Unit
  emit event s = (ok tt, record s { events = s.events ++ event ∷ [] })

  -- A call of the injected function, which works on the sandbox and may throw.
  abbrev pub inject : {B : Type 0} → (S → Result Thrown B × S) → Act S P A B
  inject f s = let (result, sandbox) = f s.sandbox in (result, record s { sandbox = sandbox })

  module _ (clock : ℕ → ℕ) (tool_call_id tool_name : String) where
    -- `Date.now()`
    abbrev pub now : Act S P A ℕ
    now s = (ok (clock s.reads), record s { reads = suc s.reads })

    abbrev pub end : Shown A → Bool → ℕ → Act S P A Unit
    end shown is_error start_time = do
      time ← now
      emit (emit_end tool_call_id tool_name shown is_error (minus time start_time))

    abbrev pub end_with : ToolResult A → ℕ → Act S P A (ToolResult A)
    end_with error start_time = do end (failure error) true start_time; pure error

    -- The end of a call whose context or parameters are not valid.
    unfoldable pub refuse : String → ℕ → Act S P A (ToolResult A)
    refuse message start_time =
        end_with (create_error_result validation_error message none) start_time

    -- `catch`
    unfoldable pub fail : Thrown → ℕ → Act S P A (ToolResult A)
    fail error start_time =
        let tool_error = map_error_to_tool_error error in
        end_with (create_error_result tool_error.code tool_error.message tool_error.details)
          start_time

    abbrev pub caught : ℕ → Result Thrown (ToolResult A) → Act S P A (ToolResult A)
    caught start_time (ok result) = pure result
    caught start_time (err error) = fail error start_time

    -- `try` and `catch`
    unfoldable pub try_call : ℕ → Act S P A (ToolResult A) → Act S P A (ToolResult A)
    try_call start_time attempt s = caught start_time (attempt s).0 (attempt s).1

    -- `execute` up to the event of the start: the tool's own part `run` takes the workspace, the
    -- required field and the parameters. These are a value of any kind: where they are not an
    -- object, `err` holds the message of the error that reading a field of them throws.
    unfoldable pub checked :
        {Params : Type 0}
        → (Params → Option String)
        → String
        → (String → String → Params → ℕ → Act S P A (ToolResult A))
        → Result String Params
        → Option ToolContext
        → Act S P A (ToolResult A)
    unfolding refuse
    checked required message_if_missing run params context = do
      start_time ← now
      elim (workspace_of context) [
        | none ↦ refuse "No workspace context available" start_time
        | some workspace_id ↦ elim params [
          | err message ↦ refuse message start_time
          | ok parsed ↦ elim (truthy (required parsed)) [
            | none ↦ refuse message_if_missing start_time
            | some value ↦ run workspace_id value parsed start_time
          ]
        ]
      ]
