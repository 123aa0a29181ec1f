-- ===== src/Tools/Calls.antt =====
-- services/orchestrator/src/tools/{bash,read,write}.ts: every call of a tool has one end.
use mathlib.Core.List.{append_assoc}
use minerva.Base.{
  ℕ, String, ◌≡◌, refl, ap, ◌∙◌, Bool, false, Option, List, [], ◌∷◌, inl, inr, or_else,
}
use minerva.Base.Integers.{ℤ}
use minerva.Exec.{Result, Result-cases}
use minerva.Tools.{
  ToolContext, ToolResult, Shown, emit_start, emit_end, Thrown, Session, create_error_result,
  try_call,
}
use minerva.Tools.Bash.{
  ExecutionChunk, out_chunk, err_chunk, exit_chunk, BashToolParams, ExecuteOptions, Chunks,
  BashStart, BashToolResult, run_command, bash_execute,
}
use minerva.Tools.ReadFile.{
  ReadToolParams, ReadOptions, ReadStart, ReadToolResult, read_path, read_execute,
}
use minerva.Tools.WriteFile.{
  WriteToolParams, WriteOptions, WriteStart, WriteToolResult, write_path, write_execute,
}
use minerva.Tools.Output.{Ending, finished, stopped, failed, ending, taken, updates}
use minerva.Tools.Commands.{Concluded, start_of, options_of, run_lem}
use minerva.Tools.Ends.{
  ends, Shows, error_shown, outcome_shown, Closes, done-Closes, fail-Closes, started-Closes,
  checked-Closes,
}
use minerva.Tools.Registry.{SandboxAdapter, read_file_fn, write_file_fn}

ends-updates :
    {P : Type 0} (A : Type 0) (id : String) (p : P) (chunks : List ExecutionChunk)
    → ends {A = A} (emit_start id "bash" p ∷ updates id chunks) ≡ 0
unfolding ends updates
ends-updates A id p [] = refl
ends-updates A id p (out_chunk text ∷ chunks) = ends-updates A id p chunks
ends-updates A id p (err_chunk text ∷ chunks) = ends-updates A id p chunks
ends-updates A id p (exit_chunk code ∷ chunks) = ends-updates A id p chunks

Concluded-Shows :
    (e : Ending) (out errors : List String) (code : ℤ) {result : ToolResult BashToolResult}
    {shown : Shown BashToolResult} {is_error : Bool}
    → Concluded e out errors code result shown is_error
    → Shows result shown is_error
unfolding Concluded create_error_result
Concluded-Shows finished out errors code (b, r, sh, f, _, _, _) = rw (r, sh) (outcome_shown b _)
Concluded-Shows stopped out errors code (r, sh, f) =
    rw (sh, f) (error_shown _ (ap (λ x. x.success) r))
Concluded-Shows (failed thrown) out errors code (r, sh, f) =
    rw (sh, f) (error_shown _ (ap (λ x. x.success) r))

module _ {S : Type 0} (clock : ℕ → ℕ) (id : String) where
  read_path-Closes :
      (read_file_fn : String → String → ReadOptions → S → (Result Thrown String × S))
      (workspace_id path : String) (parsed : ReadToolParams) (start_time : ℕ) (s : Session S _ _)
      → Closes id "read" s.events
          (read_path clock id read_file_fn workspace_id path parsed start_time s)
  unfolding read_path try_call
  read_path-Closes read_file_fn workspace_id path parsed start_time s =
      let encoding = or_else parsed.encoding "utf-8" in
      let p : ReadStart = record { path = path; encoding = encoding; limit = parsed.limit } in
      let answer =
        read_file_fn workspace_id path (record { encoding = encoding; limit = parsed.limit })
          s.sandbox in
      started-Closes clock id "read" p s.events _ (elim (Result-cases answer.0) [
        | inl (content, e) ↦ rw e (done-Closes clock id "read" _ false start_time _)
        | inr (thrown, e) ↦ rw e (fail-Closes clock id "read" thrown start_time _)
      ])

  write_path-Closes :
      (write_file_fn : String → String → String → WriteOptions → S → (Result Thrown Unit × S))
      (workspace_id path : String) (parsed : WriteToolParams) (start_time : ℕ) (s : Session S _ _)
      → Closes id "write" s.events
          (write_path clock id write_file_fn workspace_id path parsed start_time s)
  unfolding write_path try_call
  write_path-Closes write_file_fn workspace_id path parsed start_time s =
      let encoding = or_else parsed.encoding "utf-8" in
      let append = or_else parsed.append false in
      let p : WriteStart = record { path = path; encoding = encoding; append = append } in
      let answer =
        write_file_fn workspace_id path parsed.content
          (record { encoding = encoding; append = append }) s.sandbox in
      started-Closes clock id "write" p s.events _ (elim (Result-cases answer.0) [
        | inl (done, e) ↦ rw e (done-Closes clock id "write" _ false start_time _)
        | inr (thrown, e) ↦ rw e (fail-Closes clock id "write" thrown start_time _)
      ])

  read-Closes :
      (read_file_fn : String → String → ReadOptions → S → (Result Thrown String × S))
      (params : Result String ReadToolParams) (context : Option ToolContext) (s : Session S _ _)
      → Closes id "read" s.events (read_execute clock id read_file_fn params context s)
  unfolding read_execute
  read-Closes read_file_fn =
      checked-Closes clock id "read" (λ parsed. parsed.path) "Path is required"
        (read_path clock id read_file_fn) (read_path-Closes read_file_fn)

  write-Closes :
      (write_file_fn : String → String → String → WriteOptions → S → (Result Thrown Unit × S))
      (params : Result String WriteToolParams) (context : Option ToolContext) (s : Session S _ _)
      → Closes id "write" s.events (write_execute clock id write_file_fn params context s)
  unfolding write_execute
  write-Closes write_file_fn =
      checked-Closes clock id "write" (λ parsed. parsed.path) "Path is required"
        (write_path clock id write_file_fn) (write_path-Closes write_file_fn)

  run_command-Closes :
      (execute_fn : String → String → ExecuteOptions → S → (Chunks × S))
      (workspace_id command : String) (parsed : BashToolParams) (start_time : ℕ) (s : Session S _ _)
      → Closes id "bash" s.events
          (run_command clock id execute_fn workspace_id command parsed start_time s)
  run_command-Closes execute_fn workspace_id command parsed start_time s =
      let (chunks, sandbox) = execute_fn workspace_id command (options_of parsed) s.sandbox in
      let start = emit_start id "bash" (start_of command parsed) in
      let told = start ∷ updates id (taken chunks) in
      let h = run_lem clock id execute_fn workspace_id command parsed start_time s in
      record {
        result = h.result;
        shown = h.shown;
        is_error = h.is_error;
        duration = h.duration;
        others = told;
        returns = h.returns;
        emits =
            h.emits
            ∙ append_assoc s.events told (emit_end id "bash" h.shown h.is_error h.duration ∷ []);
        once = ends-updates _ id (start_of command parsed) (taken chunks);
        shows = Concluded-Shows (ending chunks) _ _ _ h.means;
      }

  bash-Closes :
      (execute_fn : String → String → ExecuteOptions → S → (Chunks × S))
      (params : Result String BashToolParams) (context : Option ToolContext) (s : Session S _ _)
      → Closes id "bash" s.events (bash_execute clock id execute_fn params context s)
  unfolding bash_execute
  bash-Closes execute_fn =
      checked-Closes clock id "bash" (λ parsed. parsed.command) "Command is required"
        (run_command clock id execute_fn) (run_command-Closes execute_fn)

  -- Every call of a tool of the registry returns a result. Whatever the parameters, the context, the
  -- adapter and the chunks of a command are, it emits exactly one event of the end, after all its
  -- other events. This shows the result as an error where the call gives one, and else what the call
  -- gives.
  pub calls_end_once :
      (adapter : SandboxAdapter S) (context : Option ToolContext)
      (reading : Result String ReadToolParams) (r : Session S ReadStart ReadToolResult)
      (writing : Result String WriteToolParams) (w : Session S WriteStart WriteToolResult)
      (running : Result String BashToolParams) (b : Session S BashStart BashToolResult)
      → Closes id "read" r.events (read_execute clock id (read_file_fn adapter) reading context r)
        × Closes id "write" w.events
            (write_execute clock id (write_file_fn adapter) writing context w)
        × Closes id "bash" b.events (bash_execute clock id adapter.execute running context b)
  calls_end_once adapter context reading r writing w running b = (
    read-Closes (read_file_fn adapter) reading context r,
    write-Closes (write_file_fn adapter) writing context w,
    bash-Closes adapter.execute running context b,
  )
