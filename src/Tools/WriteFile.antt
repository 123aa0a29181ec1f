-- ===== src/Tools/WriteFile.antt =====
-- services/orchestrator/src/tools/write.ts: `createWriteTool`.
use minerva.Base.{ℕ, String, Bool, false, Option, or_else}
use minerva.Base.Text.{units}
use minerva.Exec.{Result, pure, ◌>>◌}
use minerva.Tools.{
  ToolContext, ToolResult, outcome, emit_start, Thrown, create_success_result, Act, emit, inject,
  end, try_call, checked,
}

pub record WriteToolParams : Type 0 where
  pub path : Option String
  pub content : String
  pub encoding : Option String
  pub append : Option Bool

pub record WriteOptions : Type 0 where
  pub encoding : String
  pub append : Bool

-- The arguments that `emitStart` shows.
pub record WriteStart : Type 0 where
  pub path : String
  pub encoding : String
  pub append : Bool

pub record WriteToolResult : Type 0 where
  pub path : String
  pub bytes_written : ℕ
  pub encoding : String

module _ {S : Type 0} (clock : ℕ → ℕ) (tool_call_id : String)
    (write_file_fn : String → String → String → WriteOptions → S → (Result Thrown Unit × S)) where
  unfoldable pub write_path :
      String
      → String
      → WriteToolParams
      → ℕ
      → Act S WriteStart WriteToolResult (ToolResult WriteToolResult)
  unfolding try_call
  write_path workspace_id path parsed start_time = do
    let encoding = or_else parsed.encoding "utf-8"
    let append = or_else parsed.append false
    emit (
        emit_start tool_call_id "write"
          (record { path = path; encoding = encoding; append = append }))
    try_call clock tool_call_id "write" start_time (do
      inject (
          write_file_fn workspace_id path parsed.content
            (record { encoding = encoding; append = append }))
      let result : WriteToolResult = record {
        path = path;
        bytes_written = units parsed.content;
        encoding = encoding;
      }
      end clock tool_call_id "write" (outcome result) false start_time
      pure (create_success_result result))

  -- `execute`
  unfoldable pub write_execute :
      Result String WriteToolParams
      → Option ToolContext
      → Act S WriteStart WriteToolResult (ToolResult WriteToolResult)
  unfolding checked write_path
  write_execute =
      checked clock tool_call_id "write" (λ parsed. parsed.path) "Path is required" write_path
