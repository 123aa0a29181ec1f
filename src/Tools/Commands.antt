-- ===== src/Tools/Commands.antt =====
-- services/orchestrator/src/tools/bash.ts: a call of the tool `bash` with valid parameters, from end
-- to end.
use mathlib.Core.List.{append_assoc}
use minerva.Base.{
  ℕ, suc, String, ◌≡◌, refl, sym, subst, Bool, true, false, Option, none, some, List, [], ◌∷◌, ◌++◌,
  not, or_else, truthy,
}
use minerva.Base.Integers.{ℤ, pos, is_zero}
use minerva.Base.Text.{join}
use minerva.Exec.{Result, ok, ◌>>=◌}
use minerva.Tools.{
  ToolContext, ToolResult, Shown, failure, outcome, ToolEvent, emit_start, emit_end, Thrown,
  cancelled, create_success_result, create_error_result, map_error_to_tool_error, Session,
  workspace_of, fail, try_call, checked,
}
use minerva.Tools.Bash.{
  BashToolParams, BashStart, BashToolResult, ExecuteOptions, Chunks, Output, no_output, read_chunks,
  conclude, run_command, bash_execute,
}
use minerva.Tools.Output.{
  Ending, finished, stopped, failed, taken, ending, stdout_of, stderr_of, last_exit, updates,
  collect_all, collect_all-stdout, collect_all-stderr, collect_all-exit, wind_up, told,
  read_chunks_lem,
}

-- What the end of the chunks, with the output and the exit code before it, means for the result, for
-- what the event of the end shows and for its flag.
unfoldable pub Concluded :
    Ending
    → List String
    → List String
    → ℤ
    → ToolResult BashToolResult
    → Shown BashToolResult
    → Bool
    → Type 0
Concluded finished out errors code result shown is_error =
    (b : BashToolResult) × (result ≡ create_success_result b)
    × (shown ≡ outcome b)
    × (is_error ≡ not (is_zero code))
    × (b.stdout ≡ join "" out)
    × (b.stderr ≡ join "" errors)
    × (b.exit_code ≡ code)
Concluded stopped out errors code result shown is_error =
    (result ≡ create_error_result cancelled "Command was cancelled" none)
    × (shown ≡ failure result)
    × (is_error ≡ true)
Concluded (failed thrown) out errors code result shown is_error =
    (result
      ≡ record { success = false; content = none; error = some (map_error_to_tool_error thrown) })
    × (shown ≡ failure result)
    × (is_error ≡ true)

abbrev pub start_of : String → BashToolParams → BashStart
start_of command parsed = record {
  command = command;
  cwd = parsed.cwd;
  timeout = or_else parsed.timeout 60000;
  env = parsed.env;
}

abbrev pub options_of : BashToolParams → ExecuteOptions
options_of parsed = record {
  timeout_ms = or_else parsed.timeout 60000;
  working_dir = parsed.cwd;
  env = parsed.env;
}

module _ {S : Type 0} (clock : ℕ → ℕ) (tool_call_id : String) where
  -- The answer of a call that has emitted `events`, the last of them one of the end.
  pub record Answered (e : Ending) (out errors : List String) (code : ℤ) (sandbox : S)
      (before : List (ToolEvent BashStart BashToolResult))
      (answer : Result Thrown (ToolResult BashToolResult) × Session S BashStart BashToolResult)
      : Type 0 where
    pub result : ToolResult BashToolResult
    pub shown : Shown BashToolResult
    pub is_error : Bool
    pub duration : ℤ
    pub returns : answer.0 ≡ ok result
    pub emits :
        answer.1.events ≡ before ++ emit_end tool_call_id "bash" shown is_error duration ∷ []
    pub leaves : answer.1.sandbox ≡ sandbox
    pub means : Concluded e out errors code result shown is_error

  after_loop :
      (start_time : ℕ) (e : Ending) (out : Output) (s : Session S BashStart BashToolResult)
      → Answered e out.stdout_chunks out.stderr_chunks out.exit_code s.sandbox s.events (
          try_call clock tool_call_id "bash" start_time
            (wind_up clock tool_call_id start_time e out >>= conclude clock tool_call_id start_time)
            s)
  unfolding try_call fail conclude create_error_result Concluded
  after_loop start_time finished out s = record {
    result = _;
    shown = _;
    is_error = _;
    duration = _;
    returns = refl;
    emits = refl;
    leaves = refl;
    means = (_, refl, refl, refl, refl, refl, refl);
  }
  after_loop start_time stopped out s = record {
    result = _;
    shown = _;
    is_error = _;
    duration = _;
    returns = refl;
    emits = refl;
    leaves = refl;
    means = (refl, refl, refl);
  }
  after_loop start_time (failed thrown) out s = record {
    result = _;
    shown = _;
    is_error = _;
    duration = _;
    returns = refl;
    emits = refl;
    leaves = refl;
    means = (refl, refl, refl);
  }

  abbrev pub LoopAnswered :
      (chunks : Chunks) (sandbox : S) (before : List (ToolEvent BashStart BashToolResult))
      → Result Thrown (ToolResult BashToolResult) × Session S BashStart BashToolResult
      → Type 0
  LoopAnswered chunks =
      Answered (ending chunks) (stdout_of (taken chunks)) (stderr_of (taken chunks))
        (or_else (last_exit (taken chunks)) (pos 0))

  loop_lem :
      (start_time : ℕ) (chunks : Chunks) (s : Session S BashStart BashToolResult)
      → LoopAnswered chunks s.sandbox (s.events ++ updates tool_call_id (taken chunks)) (
          try_call clock tool_call_id "bash" start_time
            (read_chunks clock tool_call_id start_time chunks no_output
              >>= conclude clock tool_call_id start_time)
            s)
  unfolding try_call
  loop_lem start_time chunks s =
      let out = collect_all (taken chunks) no_output in
      rw
        (
          read_chunks_lem clock tool_call_id start_time chunks no_output s,
          sym (collect_all-stdout (taken chunks) no_output),
          sym (collect_all-stderr (taken chunks) no_output),
          sym (collect_all-exit (taken chunks) no_output),
        )
        (after_loop start_time (ending chunks) out
          (told clock tool_call_id start_time s (updates tool_call_id (taken chunks))))

  pub run_lem :
      (execute_fn : String → String → ExecuteOptions → S → (Chunks × S))
      (workspace_id command : String) (parsed : BashToolParams) (start_time : ℕ)
      (s : Session S BashStart BashToolResult)
      → let (chunks, sandbox) = execute_fn workspace_id command (options_of parsed) s.sandbox in
        LoopAnswered chunks sandbox
          (s.events
            ++ (emit_start tool_call_id "bash" (start_of command parsed)
                ∷ updates tool_call_id (taken chunks)))
          (run_command clock tool_call_id execute_fn workspace_id command parsed start_time s)
  unfolding run_command try_call
  run_lem execute_fn workspace_id command parsed start_time s =
      let event = emit_start tool_call_id "bash" (start_of command parsed) in
      let given : Chunks × S = execute_fn workspace_id command (options_of parsed) s.sandbox in
      rw (sym (append_assoc s.events (event ∷ []) (updates tool_call_id (taken given.0)))) (
        loop_lem start_time given.0
          (record s { sandbox = given.1; events = s.events ++ event ∷ [] }))

  -- A call of the tool `bash` in a workspace and with a command emits its start, one update for each
  -- chunk of output that it takes, in their order, and then one event of the end, and leaves the
  -- sandbox as the command does. It takes the chunks up to the first at which the signal is aborted.
  -- If the chunks end before one, it succeeds with the joined texts of the standard output and of
  -- the error output and the last exit code, or 0, and the event of the end shows this output and
  -- is an error where the code is not 0. If the signal is aborted at a chunk, the result is the
  -- error that the command was cancelled, and if the iteration throws, the mapped error; the event
  -- of the end then shows the result as an error.
  pub bash_lem :
      (execute_fn : String → String → ExecuteOptions → S → (Chunks × S)) (parsed : BashToolParams)
      (context : Option ToolContext) (workspace_id command : String) (chunks : Chunks) (sandbox : S)
      (s : Session S BashStart BashToolResult)
      → workspace_of context ≡ some workspace_id
      → truthy parsed.command ≡ some command
      → execute_fn workspace_id command (options_of parsed) s.sandbox ≡ (chunks, sandbox)
      → Answered
          (ending chunks)
          (stdout_of (taken chunks))
          (stderr_of (taken chunks))
          (or_else (last_exit (taken chunks)) (pos 0))
          sandbox
          (s.events
            ++ (emit_start tool_call_id "bash" (start_of command parsed)
                ∷ updates tool_call_id (taken chunks)))
          (bash_execute clock tool_call_id execute_fn (ok parsed) context s)
  unfolding bash_execute checked
  bash_lem execute_fn parsed context w command chunks sandbox s in_workspace has_command runs =
      subst
        (λ p.
          LoopAnswered p.0 p.1
            (s.events
              ++ (emit_start tool_call_id "bash" (start_of command parsed)
                  ∷ updates tool_call_id (taken p.0)))
            (bash_execute clock tool_call_id execute_fn (ok parsed) context s))
        runs
        (rw (in_workspace, has_command)
          (run_lem execute_fn w command parsed (clock s.reads) (record s { reads = suc s.reads })))
