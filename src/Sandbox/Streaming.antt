-- ===== src/Sandbox/Streaming.antt =====
-- services/orchestrator/src/sandbox/execution.ts: `ExecutionService`, with the error of
-- services/orchestrator/src/sandbox/errors.ts that it throws. The calls of the sandbox's client are
-- the record `SandboxProcess`; what they throw is an `Error`.
use Prim.Native.String.{◌++◌ as ◌<>◌}
use Prim.Native.Nat.{◌/◌}
use minerva.Base.{ℕ, String, false, Option, none, some, List, [], ◌∷◌, ◌==◌, if◌then◌else◌, or_else}
use minerva.Base.Integers.{ℤ, pos}
use minerva.Base.Text.{contains}
use minerva.Exec.{Result, ok, err, Exec, ◌>>◌}
use minerva.Tools.{Thrown}
use minerva.Tools.Bash.{
  ExecuteOptions, ExecutionChunk, out_chunk, err_chunk, exit_chunk, Chunks, done, throws, next,
}
use minerva.Sandbox.Files.{sandbox_error, or_number}

module _ (text_of : ℕ → String) where
  unfoldable pub command_timeout_error : String → ℕ → Thrown
  command_timeout_error command timeout_ms =
      sandbox_error "COMMAND_TIMEOUT"
        ("Command timed out after " <> text_of timeout_ms <> "ms: " <> command)

pub record CommandAnswer : Type 0 where
  pub output : String
  pub exit_code : Option ℤ

pub record SandboxProcess (S : Type 0) : Type 0 where
  pub create_session : String → Exec S Thrown Unit
  -- the session, the command and the time that it has, in seconds
  pub execute_session_command : String → String → ℕ → Exec S Thrown CommandAnswer
  pub delete_session : String → Exec S Thrown Unit

-- What is yielded, and how it ends.
pub record Streamed : Type 0 where
  pub chunks : List ExecutionChunk
  pub error : Option Thrown

-- The chunks for a reader whose signal stays as it is: not aborted.
unfoldable pub unaborted : List ExecutionChunk → Option Thrown → Chunks
unaborted [] none = done
unaborted [] (some error) = throws error
unaborted (chunk ∷ chunks) error = next false chunk (unaborted chunks error)

module _ {S : Type 0} (text_of : ℕ → String) (process : SandboxProcess S) where
  -- What is yielded for an answer, or for what was thrown.
  unfoldable pub yielded : String → ℕ → Result Thrown CommandAnswer → Streamed
  unfolding command_timeout_error
  yielded command timeout_ms (ok answer) =
      let exit = exit_chunk (or_else answer.exit_code (pos 0)) ∷ [] in
      record {
        chunks = if answer.output == "" then exit else out_chunk answer.output ∷ exit;
        error = none;
      }
  yielded command timeout_ms (err error) =
      if contains error.text "timeout"
      then record { chunks = []; error = some (command_timeout_error text_of command timeout_ms) }
      else record { chunks = err_chunk error.text ∷ exit_chunk (pos 1) ∷ []; error = none }

  abbrev pub session_command : String → String → ℕ → Exec S Thrown CommandAnswer
  session_command session_id command timeout_ms = do
    process.create_session session_id
    process.execute_session_command session_id command (timeout_ms / 1000)

  -- `executeStreaming` to its end, `finally` included: the session is deleted in each case.
  unfoldable pub execute_streaming : String → String → Option ℕ → S → (Streamed × S)
  unfolding yielded
  execute_streaming session_id command timeout s =
      let timeout_ms = or_number timeout 300000 in
      let (answer, s') = session_command session_id command timeout_ms s in
      (yielded command timeout_ms answer, (process.delete_session session_id s').1)

  -- `execute` of `DaytonaSandboxAdapter`, once the workspace's sandbox is known. The working directory
  -- and the environment are not looked at.
  unfoldable pub execute :
      (session_id : String) → String → String → ExecuteOptions → S → (Chunks × S)
  unfolding execute_streaming unaborted
  execute session_id workspace_id command options s =
      let (streamed, s') = execute_streaming session_id command (some options.timeout_ms) s in
      (unaborted streamed.chunks streamed.error, s')
