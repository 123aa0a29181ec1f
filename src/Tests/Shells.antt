-- ===== src/Tests/Shells.antt =====
-- The results about commands in a sandbox at concrete inputs.
use minerva.Base.{
  String, ◌≡◌, ◌⊎◌, refl, Option, none, some, List, [], ◌∷◌, ◌++◌, ◌==◌, if◌then◌else◌, or_else,
}
use minerva.Base.Integers.{pos}
use minerva.Base.Text.{contains}
use minerva.Exec.{Result, ok, err}
use minerva.Tools.{
  Thrown, ToolContext, Session, unknown_error, map_error_to_tool_error, create_error_result, fail,
}
use minerva.Tools.Bash.{BashToolParams, BashStart, BashToolResult, bash_execute}
use minerva.Tools.Output.{finished, failed}
use minerva.Sandbox.Streaming.{SandboxProcess, CommandAnswer, command_timeout_error, execute}
use minerva.Sandbox.Composition.{Ends, bash_over_sandbox}

abbrev late : Thrown
late = record { code = none; message = "timeout of 60s"; details = none; text = "timeout of 60s" }

-- A sandbox that keeps a log of its sessions, and whose commands run out of time.
abbrev process : SandboxProcess (List String)
process = record {
  create_session = λ id log. (ok tt, log ++ "create" ∷ []);
  execute_session_command = λ id command timeout log. (err late, log);
  delete_session = λ id log. (ok tt, log ++ "delete" ∷ []);
}

abbrev context : Option ToolContext
context = some record { workspace_id = "w1"; run_id = "r1"; user_id = "ann" }

abbrev fresh : Session (List String) BashStart BashToolResult
fresh = record { sandbox = []; events = []; reads = 0 }

abbrev make : BashToolParams
make = record { command = some "make"; cwd = some "/srv"; timeout = none; env = none }

-- The tool reports a command that ran out of time with an unknown error.
make_is_late :
    (bash_execute (λ n. n) "c1" (execute (λ n. "60000") process "e1") (ok make) context fresh).0
    ≡ ok (create_error_result unknown_error "Command timed out after 60000ms: make" none)
unfolding bash_execute execute fail map_error_to_tool_error
make_is_late = refl

bash_over_sandbox_example :
    ((a : CommandAnswer) × (◌≡◌ {A = Result Thrown CommandAnswer} (err late) (ok a))
      × Ends
          (λ n. "60000")
          process
          (λ n. n)
          "c1"
          "e1"
          make
          context
          "make"
          fresh
          finished
          (if a.output == "" then [] else a.output ∷ [])
          []
          (or_else a.exit_code (pos 0)))
    ⊎ ((error : Thrown) × (◌≡◌ {A = Result Thrown CommandAnswer} (err late) (err error))
        × (if contains error.text "timeout"
            then Ends
                (λ n. "60000")
                process
                (λ n. n)
                "c1"
                "e1"
                make
                context
                "make"
                fresh
                (failed (command_timeout_error (λ n. "60000") "make" 60000))
                []
                []
                (pos 0)
            else Ends
                (λ n. "60000")
                process
                (λ n. n)
                "c1"
                "e1"
                make
                context
                "make"
                fresh
                finished
                []
                (error.text ∷ [])
                (pos 1)))
bash_over_sandbox_example =
    bash_over_sandbox (λ n. "60000") process (λ n. n) "c1" "e1" make context "w1" "make" fresh refl
      refl
