-- ===== src/Sandbox/Composition.antt =====
-- services/orchestrator/src/tools/bash.ts over services/orchestrator/src/sandbox/execution.ts: what the
-- tool makes of the sandbox's answers.
use minerva.Base.{
  ℕ, String, ◌≡◌, refl, sym, ap, subst, inl, inr, ◌⊎◌, Option, none, some, List, [], ◌∷◌, ◌++◌,
  ◌==◌, if◌then◌else◌, or_else, truthy, Bool-cases,
}
use minerva.Base.Integers.{ℤ, pos}
use minerva.Base.Text.{contains}
use minerva.Exec.{Result, ok, err, Result-cases}
use minerva.Tools.{ToolContext, Thrown, Session, workspace_of, emit_start}
use minerva.Tools.Bash.{BashToolParams, BashStart, BashToolResult, ExecutionChunk, bash_execute}
use minerva.Tools.Output.{
  Ending, finished, failed, ending, taken, stdout_of, stderr_of, last_exit, updates,
}
use minerva.Tools.Commands.{Answered, start_of, options_of, bash_lem}
use minerva.Sandbox.Files.{or_number}
use minerva.Sandbox.Streaming.{
  SandboxProcess, CommandAnswer, command_timeout_error, unaborted, yielded, session_command,
  execute, execute_streaming,
}

ending_of : Option Thrown → Ending
ending_of none = finished
ending_of (some error) = failed error

taken-unaborted :
    (chunks : List ExecutionChunk) (e : Option Thrown) → taken (unaborted chunks e) ≡ chunks
unfolding taken unaborted
taken-unaborted [] none = refl
taken-unaborted [] (some error) = refl
taken-unaborted (chunk ∷ chunks) e = ap (λ rest. chunk ∷ rest) (taken-unaborted chunks e)

ending-unaborted :
    (chunks : List ExecutionChunk) (e : Option Thrown) → ending (unaborted chunks e) ≡ ending_of e
unfolding ending unaborted ending_of
ending-unaborted [] none = refl
ending-unaborted [] (some error) = refl
ending-unaborted (chunk ∷ chunks) e = ending-unaborted chunks e

module _ {S : Type 0} (text_of : ℕ → String) (process : SandboxProcess S) (clock : ℕ → ℕ)
    (tool_call_id session_id : String) where
  -- The call answers as if the command had ended so.
  abbrev pub Ends :
      BashToolParams
      → Option ToolContext
      → String
      → Session S BashStart BashToolResult
      → Ending
      → List String
      → List String
      → ℤ
      → Type 0
  Ends parsed context command s e out errors code =
      let timeout_ms = or_number (some (or_else parsed.timeout 60000)) 300000 in
      let (answer, sandbox) =
        session_command text_of process session_id command timeout_ms s.sandbox in
      Answered clock tool_call_id e out errors code (process.delete_session session_id sandbox).1
        (s.events
          ++ (emit_start tool_call_id "bash" (start_of command parsed)
              ∷ updates tool_call_id (yielded text_of process command timeout_ms answer).chunks))
        (bash_execute clock tool_call_id (execute text_of process session_id) (ok parsed) context s)

  streamed :
      (parsed : BashToolParams) (context : Option ToolContext) (workspace_id command : String)
      (s : Session S BashStart BashToolResult)
      → workspace_of context ≡ some workspace_id
      → truthy parsed.command ≡ some command
      → let timeout_ms = or_number (some (or_else parsed.timeout 60000)) 300000 in
        let answer = (session_command text_of process session_id command timeout_ms s.sandbox).0 in
        let told = yielded text_of process command timeout_ms answer in
        Ends parsed context command s
          (ending_of told.error)
          (stdout_of told.chunks)
          (stderr_of told.chunks)
          (or_else (last_exit told.chunks) (pos 0))
  unfolding execute execute_streaming
  streamed parsed context w command s h k =
      let timeout_ms = or_number (some (or_else parsed.timeout 60000)) 300000 in
      let answer = (session_command text_of process session_id command timeout_ms s.sandbox).0 in
      let told = yielded text_of process command timeout_ms answer in
      let chunks = unaborted told.chunks told.error in
      let sandbox =
        (execute text_of process session_id w command (options_of parsed) s.sandbox).1 in
      let call =
        bash_execute clock tool_call_id (execute text_of process session_id) (ok parsed) context
          s in
      let start = emit_start tool_call_id "bash" (start_of command parsed) in
      let holds : Ending → List ExecutionChunk → Type 0 = λ e cs.
        Answered clock tool_call_id e (stdout_of cs) (stderr_of cs) (or_else (last_exit cs) (pos 0))
          sandbox (s.events ++ (start ∷ updates tool_call_id cs)) call in
      subst (λ e. holds e told.chunks) (ending-unaborted told.chunks told.error)
        (subst (λ cs. holds (ending chunks) cs) (taken-unaborted told.chunks told.error)
          (bash_lem clock tool_call_id (execute text_of process session_id) parsed context w command
            chunks sandbox s h k refl))

  -- The call answers as the service yields for the answer `r`.
  abbrev EndsAs :
      BashToolParams
      → Option ToolContext
      → String
      → Session S BashStart BashToolResult
      → Result Thrown CommandAnswer
      → Type 0
  EndsAs parsed context command s r =
      let timeout_ms = or_number (some (or_else parsed.timeout 60000)) 300000 in
      let told = yielded text_of process command timeout_ms r in
      Ends parsed context command s (ending_of told.error) (stdout_of told.chunks)
        (stderr_of told.chunks) (or_else (last_exit told.chunks) (pos 0))

  transfer :
      (parsed : BashToolParams) (context : Option ToolContext) (command : String)
      (s : Session S BashStart BashToolResult) {e e' : Ending}
      {out out' errors errors' : List String} {code code' : ℤ}
      → Ends parsed context command s e out errors code
      → e ≡ e'
      → out ≡ out'
      → errors ≡ errors'
      → code ≡ code'
      → Ends parsed context command s e' out' errors' code'
  transfer parsed context command s held a b c d = rw (sym a, sym b, sym c, sym d) held

  answered :
      (parsed : BashToolParams) (context : Option ToolContext) (command : String)
      (s : Session S BashStart BashToolResult) (a : CommandAnswer)
      → EndsAs parsed context command s (ok a)
      → Ends parsed context command s finished
          (if a.output == "" then [] else a.output ∷ [])
          []
          (or_else a.exit_code (pos 0))
  unfolding yielded ending_of stdout_of stderr_of last_exit
  answered parsed context command s a held = elim (Bool-cases (a.output == "")) [
    | inl e ↦ transfer parsed context command s held refl (rw e refl) (rw e refl) (rw e refl)
    | inr e ↦ transfer parsed context command s held refl (rw e refl) (rw e refl) (rw e refl)
  ]

  thrown :
      (parsed : BashToolParams) (context : Option ToolContext) (command : String)
      (s : Session S BashStart BashToolResult) (error : Thrown)
      → EndsAs parsed context command s (err error)
      → let timeout_ms = or_number (some (or_else parsed.timeout 60000)) 300000 in
        if contains error.text "timeout"
        then Ends parsed context command s
            (failed (command_timeout_error text_of command timeout_ms))
            []
            []
            (pos 0)
        else Ends parsed context command s finished [] (error.text ∷ []) (pos 1)
  unfolding yielded ending_of stdout_of stderr_of last_exit
  thrown parsed context command s error held = elim (Bool-cases (contains error.text "timeout")) [
    | inl e ↦
        rw e
          (transfer parsed context command s held (rw e refl) (rw e refl) (rw e refl) (rw e refl))
    | inr e ↦
        rw e
          (transfer parsed context command s held (rw e refl) (rw e refl) (rw e refl) (rw e refl))
  ]

  -- A call of the tool `bash` over the service of commands, in a workspace, with a command and a
  -- signal that is not aborted, deletes its session in each case. Where the sandbox answers, the call
  -- succeeds with the output and the exit code of the command, or 0. Where a call of the sandbox
  -- throws, and the message speaks of a timeout, the call fails with the error of a command that ran
  -- out of time; for any other message it succeeds with the message as error output and exit code 1.
  pub bash_over_sandbox :
      (parsed : BashToolParams) (context : Option ToolContext) (workspace_id command : String)
      (s : Session S BashStart BashToolResult)
      → workspace_of context ≡ some workspace_id
      → truthy parsed.command ≡ some command
      → let timeout_ms = or_number (some (or_else parsed.timeout 60000)) 300000 in
        let answer = (session_command text_of process session_id command timeout_ms s.sandbox).0 in
        ((a : CommandAnswer) × (answer ≡ ok a)
          × Ends parsed context command s finished
              (if a.output == "" then [] else a.output ∷ [])
              []
              (or_else a.exit_code (pos 0)))
        ⊎ ((error : Thrown) × (answer ≡ err error)
            × (if contains error.text "timeout"
                then Ends parsed context command s
                    (failed (command_timeout_error text_of command timeout_ms))
                    []
                    []
                    (pos 0)
                else Ends parsed context command s finished [] (error.text ∷ []) (pos 1)))
  bash_over_sandbox parsed context w command s h k =
      let timeout_ms = or_number (some (or_else parsed.timeout 60000)) 300000 in
      let answer = (session_command text_of process session_id command timeout_ms s.sandbox).0 in
      let held = streamed parsed context w command s h k in
      elim (Result-cases answer) [
        | inl (a, e) ↦ inl (
          a,
          e,
          answered parsed context command s a (subst (EndsAs parsed context command s) e held),
        )
        | inr (error, e) ↦ inr (
          error,
          e,
          thrown parsed context command s error (subst (EndsAs parsed context command s) e held),
        )
      ]
