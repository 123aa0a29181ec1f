-- ===== src/Tools/ReadFile.antt =====
-- services/orchestrator/src/tools/read.ts: `createReadTool`.
use minerva.Base.{ℕ, String, Bool, false, Option, or_else}
use minerva.Base.Text.{units}
use minerva.Exec.{Result, pure, ◌>>=◌, ◌>>◌}
use minerva.Tools.{
  ToolContext, ToolResult, outcome, emit_start, Thrown, create_success_result, Act, emit, inject,
  end, try_call, checked,
}

pub record ReadToolParams : Type 0 where
  pub path : Option String
  pub encoding : Option String
  pub limit : Option ℕ

pub record ReadOptions : Type 0 where
  pub encoding : String
  pub limit : Option ℕ

-- The arguments that `emitStart` shows.
pub record ReadStart : Type 0 where
  pub path : String
  pub encoding : String
  pub limit : Option ℕ

pub record ReadToolResult : Type 0 where
  pub content : String
  pub size : ℕ
  pub encoding : String
  pub truncated : Bool

module _ {S : Type 0} (clock : ℕ → ℕ) (tool_call_id : String)
    (read_file_fn : String → String → ReadOptions → S → Result Thrown String × S) where
  unfoldable pub read_path :
      String
      → String
      → ReadToolParams
      → ℕ
      → Act S ReadStart ReadToolResult (ToolResult ReadToolResult)
  unfolding try_call
  read_path workspace_id path parsed start_time = do
    let encoding = or_else parsed.encoding "utf-8"
    emit (
        emit_start tool_call_id "read"
          (record { path = path; encoding = encoding; limit = parsed.limit }))
    try_call clock tool_call_id "read" start_time (do
      content ←
          inject
            (read_file_fn workspace_id path (record { encoding = encoding; limit = parsed.limit }))
      let result : ReadToolResult = record {
        content = content;
        size = units content;
        encoding = encoding;
        truncated = false;
      }
      end clock tool_call_id "read" (outcome result) false start_time
      pure (create_success_result result))

  -- `execute`
  unfoldable pub read_execute :
      Result String ReadToolParams
      → Option ToolContext
      → Act S ReadStart ReadToolResult (ToolResult ReadToolResult)
  unfolding checked read_path
  read_execute =
      checked clock tool_call_id "read" (λ parsed. parsed.path) "Path is required" read_path
