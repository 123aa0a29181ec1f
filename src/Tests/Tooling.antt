-- ===== src/Tests/Tooling.antt =====
-- The results about the tools at concrete inputs, over a sandbox that is a table of files.
use minerva.Base.{ℕ, String, ◌≡◌, refl, true, false, Option, none, some, [], ◌∷◌, ◌++◌, or_else}
use minerva.Base.Integers.{pos, minus}
use minerva.Base.Text.{join}
use minerva.Dict.{Dict, get, set}
use minerva.Exec.{ok, err}
use minerva.Tools.{
  ToolContext, emit_start, Thrown, Session, unknown_error, file_not_found, map_error_to_tool_error,
  create_success_result,
}
use minerva.Tools.Bash.{
  BashToolParams, Chunks, next, done, out_chunk, err_chunk, exit_chunk, bash_execute,
}
use minerva.Tools.ReadFile.{ReadToolParams, read_execute}
use minerva.Tools.WriteFile.{WriteToolParams, write_execute}
use minerva.Tools.Registry.{SandboxAdapter, read_file_fn, write_file_fn}
use minerva.Tools.Output.{taken, ending, stdout_of, stderr_of, last_exit, updates}
use minerva.Tools.Commands.{Answered, start_of, bash_lem}
use minerva.Tools.Ends.{Closes}
use minerva.Tools.Calls.{calls_end_once}

abbrev Files : Type 0
Files = Dict String

abbrev missing_file : Thrown
missing_file = record {
  code = none;
  message = "ENOENT";
  details = none;
  text = "ENOENT: no such file";
}

-- A listing that is cancelled before its last chunk.
abbrev listing : Chunks
listing =
    next false (out_chunk "a.md")
      (next false (err_chunk "denied") (next false (exit_chunk (pos 2)) done))

abbrev adapter : SandboxAdapter Files
adapter = record {
  read_file = λ workspace_id path encoding files. elim (get path files) [
    | none ↦ (err missing_file, files)
    | some content ↦ (ok content, files)
  ];
  write_file = λ workspace_id path content encoding files. (ok tt, set path content files);
  execute = λ workspace_id command options files. (listing, set "log" command files);
}

abbrev context : Option ToolContext
context = some record { workspace_id = "w1"; run_id = "r1"; user_id = "ann" }

abbrev fresh : {P A : Type 0} → Session Files P A
fresh = record { sandbox = ("a.md", "Count.") ∷ []; events = []; reads = 0 }

abbrev clock : ℕ → ℕ
clock reads = reads

abbrev ls : BashToolParams
ls = record { command = some "ls"; cwd = none; timeout = none; env = none }

-- A command that exits with 2 succeeds as a call.
ls_exits :
    ((bash_execute clock "c1" adapter.execute (ok ls) context fresh).0)
    ≡ ok (record {
      success = true;
      content = some (record {
        stdout = "a.md";
        stderr = "denied";
        exit_code = pos 2;
        duration = pos 1;
        truncated = false;
      });
      error = none;
    })
unfolding bash_execute create_success_result join minus
ls_exits = refl

bash_lem_example :
    Answered clock "c1"
      (ending listing)
      (stdout_of (taken listing))
      (stderr_of (taken listing))
      (or_else (last_exit (taken listing)) (pos 0))
      (("a.md", "Count.") ∷ ("log", "ls") ∷ [])
      ([] ++ (emit_start "c1" "bash" (start_of "ls" ls) ∷ updates "c1" (taken listing)))
      (bash_execute clock "c1" adapter.execute (ok ls) context fresh)
unfolding set
bash_lem_example =
    bash_lem clock "c1" adapter.execute ls context "w1" "ls" listing
      (("a.md", "Count.") ∷ ("log", "ls") ∷ []) fresh refl refl refl

abbrev a_path : ReadToolParams
a_path = record { path = some "a.md"; encoding = none; limit = none }

abbrev b_path : WriteToolParams
b_path = record { path = some "b.md"; content = "x"; encoding = none; append = none }

calls_end_once_example :
    Closes "c1" "read" []
      (read_execute clock "c1" (read_file_fn adapter) (err "no object") context fresh)
    × Closes "c1" "write" []
        (write_execute clock "c1" (write_file_fn adapter) (ok b_path) context fresh)
    × Closes "c1" "bash" [] (bash_execute clock "c1" adapter.execute (ok ls) context fresh)
calls_end_once_example =
    calls_end_once clock "c1" adapter context (err "no object") fresh (ok b_path) fresh (ok ls)
      fresh

-- The error of a command that runs out of time, and that of a workspace that is not there.
abbrev command_timeout : Thrown
command_timeout = record {
  code = some "COMMAND_TIMEOUT";
  message = "Command timed out after 60000ms: make";
  details = none;
  text = "Command timed out after 60000ms: make";
}

abbrev workspace_not_found : Thrown
workspace_not_found = record {
  code = some "WORKSPACE_NOT_FOUND";
  message = "Workspace not found: w1";
  details = none;
  text = "Workspace not found: w1";
}

timeout_is_unknown : (map_error_to_tool_error command_timeout).code ≡ unknown_error
unfolding map_error_to_tool_error
timeout_is_unknown = refl

workspace_is_a_file : (map_error_to_tool_error workspace_not_found).code ≡ file_not_found
unfolding map_error_to_tool_error
workspace_is_a_file = refl
