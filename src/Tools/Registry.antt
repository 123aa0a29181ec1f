-- ===== src/Tools/Registry.antt =====
-- services/orchestrator/src/tools/index.ts: the tools over a sandbox adapter, which is an argument.
use minerva.Base.{ℕ, String, Bool, Option, none, some, List, [], ◌∷◌, map}
use minerva.Dict.{Dict, get}
use minerva.Exec.{Result}
use minerva.Tools.{ToolContext, ToolResult, Thrown, Act}
use minerva.Tools.ReadFile.{ReadToolParams, ReadOptions, ReadStart, ReadToolResult, read_execute}
use minerva.Tools.WriteFile.{
  WriteToolParams, WriteOptions, WriteStart, WriteToolResult, write_execute,
}
use minerva.Tools.Bash.{
  BashToolParams, BashStart, BashToolResult, ExecuteOptions, Chunks, bash_execute,
}

pub record FileReadOptions : Type 0 where
  pub encoding : Option String
  pub max_size : Option ℕ

pub record FileWriteOptions : Type 0 where
  pub encoding : Option String
  pub create_dirs : Option Bool
  pub mode : Option ℕ

-- The methods of `ISandboxAdapter` that the tools call.
pub record SandboxAdapter (S : Type 0) : Type 0 where
  pub read_file : String → String → FileReadOptions → S → (Result Thrown String × S)
  pub write_file : String → String → String → FileWriteOptions → S → (Result Thrown Unit × S)
  pub execute : String → String → ExecuteOptions → S → (Chunks × S)

-- The method `execute` of a tool.
pub data AgentTool (S : Type 0) : Type 0 where
  read_tool :
      ((ℕ → ℕ)
        → String
        → Result String ReadToolParams
        → Option ToolContext
        → Act S ReadStart ReadToolResult (ToolResult ReadToolResult))
      → AgentTool S
  write_tool :
      ((ℕ → ℕ)
        → String
        → Result String WriteToolParams
        → Option ToolContext
        → Act S WriteStart WriteToolResult (ToolResult WriteToolResult))
      → AgentTool S
  bash_tool :
      ((ℕ → ℕ)
        → String
        → Result String BashToolParams
        → Option ToolContext
        → Act S BashStart BashToolResult (ToolResult BashToolResult))
      → AgentTool S

module _ {S : Type 0} (adapter : SandboxAdapter S) where
  unfoldable pub read_file_fn : String → String → ReadOptions → S → (Result Thrown String × S)
  read_file_fn workspace_id path options =
      adapter.read_file workspace_id path
        (record { encoding = some options.encoding; max_size = none })

  unfoldable pub write_file_fn :
      String → String → String → WriteOptions → S → (Result Thrown Unit × S)
  write_file_fn workspace_id path content options =
      adapter.write_file workspace_id path content
        (record { encoding = some options.encoding; create_dirs = none; mode = none })

  -- The constructor.
  unfoldable pub tools : Dict (AgentTool S)
  unfolding read_file_fn write_file_fn
  tools =
      ("read", read_tool (λ clock id. read_execute clock id read_file_fn))
      ∷ ("write", write_tool (λ clock id. write_execute clock id write_file_fn))
      ∷ ("bash", bash_tool (λ clock id. bash_execute clock id adapter.execute))
      ∷ []

  unfoldable pub get_tool : String → Option (AgentTool S)
  unfolding tools
  get_tool name = get name tools

  unfoldable pub get_tool_names : List String
  unfolding tools
  get_tool_names = map (λ entry. entry.0) tools
