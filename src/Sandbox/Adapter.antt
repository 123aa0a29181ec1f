-- ===== src/Sandbox/Adapter.antt =====
-- services/orchestrator/src/sandbox/adapter.ts: `DaytonaSandboxAdapter`, once the sandbox of the
-- workspace is known. The looking up of the sandbox and its cache are not modelled.
use minerva.Base.{ℕ, String}
use minerva.Tools.Registry.{SandboxAdapter}
use minerva.Sandbox.Files.{SandboxFs, read_file, write_file}
use minerva.Sandbox.Streaming.{SandboxProcess, execute}

unfoldable pub daytona_adapter :
    {S : Type 0}
    → (ℕ → String)
    → (String → String → ℕ)
    → (cwd root_path : String) → (max_file_size : ℕ) → SandboxFs S
    → SandboxProcess S
    → (session_id : String) → SandboxAdapter S
unfolding read_file write_file execute
daytona_adapter text_of byte_length cwd root_path max_file_size fs process session_id = record {
  read_file = λ workspace_id path options.
      read_file text_of byte_length cwd root_path max_file_size fs path options;
  write_file = λ workspace_id path content options.
      write_file text_of byte_length cwd root_path max_file_size fs path content options;
  execute = execute text_of process session_id;
}
