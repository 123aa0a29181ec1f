-- ===== src/Tests/Transfers.antt =====
-- A file that the tools write and read at concrete inputs.
use minerva.Base.{
  ℕ, String, ◌≡◌, refl, ap, sym, true, false, Option, none, some, [], ◌∷◌, or_else, eq_refl,
}
use minerva.Base.Text.{units, join}
use minerva.Dict.{Dict, get, set, get-set}
use minerva.Exec.{ok}
use minerva.Tools.{ToolContext, ToolResult, Session, create_success_result}
use minerva.Tools.ReadFile.{ReadToolParams, ReadStart, ReadToolResult, read_execute}
use minerva.Tools.WriteFile.{WriteToolParams, WriteStart, WriteToolResult, write_execute}
use minerva.Tools.Registry.{SandboxAdapter, read_file_fn, write_file_fn}
use minerva.Sandbox.Paths.{normalize, relative, join_paths, is_absolute}
use minerva.Sandbox.{validate_path}
use minerva.Sandbox.Files.{SandboxFs}
use minerva.Sandbox.Streaming.{SandboxProcess}
use minerva.Sandbox.Adapter.{daytona_adapter}
use minerva.Sandbox.RoundTrip.{StoresFiles, write_then_read}

-- A sandbox whose files stand in a table, each with the number of its bytes.
abbrev fs : SandboxFs (Dict String)
fs = record {
  get_file_details = λ path files. (ok (units (or_else (get path files) "")), files);
  download = λ path files. (ok (or_else (get path files) ""), files);
  upload = λ path content files. (ok tt, set path content files);
  create_folder = λ path files. (ok tt, files);
  set_file_permissions = λ path mode files. (ok tt, files);
}

abbrev length_of : String → String → ℕ
length_of content encoding = units content

second : {A B : Type 0} {p q : A × B} → p ≡ q → p.1 ≡ q.1
second h = ap (λ r. r.1) h

fs-StoresFiles : StoresFiles length_of fs
fs-StoresFiles = record {
  downloads = λ path content s s' h. rw (sym (second h), get-set, eq_refl) refl;
  measures = λ path content s s' h. rw (sym (second h), get-set, eq_refl) refl;
}

abbrev process : SandboxProcess (Dict String)
process = record {
  create_session = λ id files. (ok tt, files);
  execute_session_command =
      λ id command timeout files. (ok record { output = ""; exit_code = none }, files);
  delete_session = λ id files. (ok tt, files);
}

abbrev adapter : SandboxAdapter (Dict String)
adapter = daytona_adapter (λ n. "") length_of "/home" "/workspace" 10 fs process "e1"

abbrev context : Option ToolContext
context = some record { workspace_id = "w1"; run_id = "r1"; user_id = "ann" }

-- The file is there already, and the call asks to append to it.
abbrev before : Session (Dict String) WriteStart WriteToolResult
before = record { sandbox = ("/workspace/a.md", "old") ∷ []; events = []; reads = 0 }

abbrev fresh : Session (Dict String) ReadStart ReadToolResult
fresh = record { sandbox = []; events = []; reads = 0 }

abbrev writing : WriteToolParams
writing = record { path = some "a.md"; content = "new"; encoding = none; append = some true }

abbrev reading : ReadToolParams
reading = record { path = some "a.md"; encoding = none; limit = some 1 }

abbrev clock : ℕ → ℕ
clock n = n

abbrev done : ToolResult WriteToolResult
done = record {
  success = true;
  content = some record { path = "a.md"; bytes_written = 3; encoding = "utf-8" };
  error = none;
}

written : (write_execute clock "c1" (write_file_fn adapter) (ok writing) context before).0 ≡ ok done
unfolding write_execute daytona_adapter write_file_fn validate_path normalize relative join
    join_paths is_absolute create_success_result units set
written = refl

write_then_read_example :
    (read_execute clock "c2" (read_file_fn adapter) (ok reading) context (record fresh {
      sandbox =
          (write_execute clock "c1" (write_file_fn adapter) (ok writing) context before).1.sandbox;
    })).0
    ≡ ok (
        create_success_result
          (record { content = "new"; size = units "new"; encoding = "utf-8"; truncated = false }))
write_then_read_example =
    write_then_read (λ n. "") length_of "/home" "/workspace" 10 fs process "e1" clock "c1" "c2"
      context writing reading "w1" "a.md" before fresh done fs-StoresFiles refl refl refl refl
      written refl
