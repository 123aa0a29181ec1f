-- ===== src/Tools/Bash.antt =====
-- services/orchestrator/src/tools/bash.ts: `createBashTool`.
use mathlib.Core.Logic.{◌⊎◌, inl, inr}
use minerva.Base.{ℕ, String, Bool, true, false, Option, none, List, [], ◌∷◌, ◌++◌, not, or_else}
use minerva.Base.Integers.{ℤ, pos, minus, is_zero}
use minerva.Base.Text.{join}
use minerva.Dict.{Dict}
use minerva.Exec.{Result, pure, throw, ◌>>=◌, ◌>>◌}
use minerva.Tools.{
  ToolContext, ToolResult, stdout, stderr, outcome, emit_start, emit_update, Thrown, cancelled,
  create_success_result, create_error_result, Act, emit, now, end, end_with, try_call, checked,
}

pub record BashToolParams : Type 0 where
  pub command : Option String
  pub cwd : Option String
  pub timeout : Option ℕ
  pub env : Option (Dict String)

-- The arguments that `emitStart` shows.
pub record BashStart : Type 0 where
  pub command : String
  pub cwd : Option String
  pub timeout : ℕ
  pub env : Option (Dict String)

pub record ExecuteOptions : Type 0 where
  pub timeout_ms : ℕ
  pub working_dir : Option String
  pub env : Option (Dict String)

pub record BashToolResult : Type 0 where
  pub stdout : String
  pub stderr : String
  pub exit_code : ℤ
  pub duration : ℤ
  pub truncated : Bool

-- A chunk has a text where its type is `stdout` or `stderr`, and a number where it is `exit`.
pub data ExecutionChunk : Type 0 where
  out_chunk err_chunk : String → ExecutionChunk
  exit_chunk : ℤ → ExecutionChunk

-- What `executeFn` yields: the chunks, each with whether the signal is aborted when it arrives, and
-- whether the iteration ends or throws.
pub data Chunks : Type 0 where
  done : Chunks
  throws : Thrown → Chunks
  next : Bool → ExecutionChunk → Chunks → Chunks

pub record Output : Type 0 where
  pub stdout_chunks : List String
  pub stderr_chunks : List String
  pub exit_code : ℤ

abbrev pub no_output : Output
no_output = record { stdout_chunks = []; stderr_chunks = []; exit_code = pos 0 }

unfoldable pub collect : ExecutionChunk → Output → Output
collect (out_chunk text) out = record out { stdout_chunks = out.stdout_chunks ++ text ∷ [] }
collect (err_chunk text) out = record out { stderr_chunks = out.stderr_chunks ++ text ∷ [] }
collect (exit_chunk code) out = record out { exit_code = code }

module _ {S : Type 0} (clock : ℕ → ℕ) (tool_call_id : String) where
  unfoldable pub update : ExecutionChunk → Act S BashStart BashToolResult Unit
  update (out_chunk text) = emit (emit_update tool_call_id "bash" stdout text)
  update (err_chunk text) = emit (emit_update tool_call_id "bash" stderr text)
  update (exit_chunk code) = pure tt

  -- The `for await` loop: the output, or the result with which it returns.
  unfoldable pub read_chunks :
      ℕ → Chunks → Output → Act S BashStart BashToolResult (Output ⊎ ToolResult BashToolResult)
  unfolding update collect
  read_chunks start_time done out = pure (inl out)
  read_chunks start_time (throws error) out = throw error
  read_chunks start_time (next true chunk chunks) out = do
    error ←
        end_with clock tool_call_id "bash"
          (create_error_result cancelled "Command was cancelled" none) start_time
    pure (inr error)
  read_chunks start_time (next false chunk chunks) out = do
    update chunk
    read_chunks start_time chunks (collect chunk out)

  -- What follows the loop.
  unfoldable pub conclude :
      ℕ
      → Output ⊎ ToolResult BashToolResult
      → Act S BashStart BashToolResult (ToolResult BashToolResult)
  conclude start_time (inr error) = pure error
  conclude start_time (inl out) = do
    time ← now clock tool_call_id "bash"
    let result : BashToolResult = record {
      stdout = join "" out.stdout_chunks;
      stderr = join "" out.stderr_chunks;
      exit_code = out.exit_code;
      duration = minus time start_time;
      truncated = false;
    }
    end clock tool_call_id "bash" (outcome result) (not (is_zero out.exit_code)) start_time
    pure (create_success_result result)

  module _ (execute_fn : String → String → ExecuteOptions → S → (Chunks × S)) where
    unfoldable pub run_command :
        String
        → String
        → BashToolParams
        → ℕ
        → Act S BashStart BashToolResult (ToolResult BashToolResult)
    unfolding try_call read_chunks conclude
    run_command workspace_id command parsed start_time = do
      let timeout = or_else parsed.timeout 60000
      emit (
          emit_start tool_call_id "bash"
            (record { command = command; cwd = parsed.cwd; timeout = timeout; env = parsed.env }))
      try_call clock tool_call_id "bash" start_time (λ s.
          let (chunks, sandbox) =
            execute_fn workspace_id command
              (record { timeout_ms = timeout; working_dir = parsed.cwd; env = parsed.env })
              s.sandbox in
          (read_chunks start_time chunks no_output >>= conclude start_time)
            (record s { sandbox = sandbox }))

    -- `execute`
    unfoldable pub bash_execute :
        Result String BashToolParams
        → Option ToolContext
        → Act S BashStart BashToolResult (ToolResult BashToolResult)
    unfolding checked run_command
    bash_execute =
        checked clock tool_call_id "bash" (λ parsed. parsed.command) "Command is required"
          run_command
