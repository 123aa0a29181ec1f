-- ===== src/Tools/Transfers.antt =====
-- services/orchestrator/src/tools/index.ts: what the tools `write` and `read` of the registry ask of the
-- adapter, and what they make of its answers.
use minerva.Base.{
  ℕ, String, ◌≡◌, refl, ap, ◌∙◌, Option, or_else, truthy, none, some, false, true, Bool, arith, inl,
  inr,
}
use minerva.Base.Text.{units}
use minerva.Exec.{Result, ok, err, Result-cases}
use minerva.Tools.{
  ToolContext, ToolResult, Thrown, Session, workspace_of, create_success_result, try_call, checked,
  fail, create_error_result,
}
use minerva.Tools.ReadFile.{ReadToolParams, ReadStart, ReadToolResult, read_path, read_execute}
use minerva.Tools.WriteFile.{
  WriteToolParams, WriteStart, WriteToolResult, write_path, write_execute,
}
use minerva.Tools.Registry.{
  FileReadOptions, FileWriteOptions, SandboxAdapter, read_file_fn, write_file_fn,
}

abbrev pub with_encoding : String → FileReadOptions
with_encoding encoding = record { encoding = some encoding; max_size = none }

abbrev pub written_with : String → FileWriteOptions
written_with encoding = record { encoding = some encoding; create_dirs = none; mode = none }

succeeded : {A : Type 0} → Result Thrown (ToolResult A) → Bool
succeeded (ok result) = result.success
succeeded (err thrown) = false

module _ {S : Type 0} (clock : ℕ → ℕ) (write_id read_id : String) (adapter : SandboxAdapter S) where
  pub write_done :
      (context : Option ToolContext) (writing : WriteToolParams) (workspace_id path : String)
      (s : Session S WriteStart WriteToolResult) (files : S)
      → workspace_of context ≡ some workspace_id
      → truthy writing.path ≡ some path
      → let encoding = or_else writing.encoding "utf-8" in
        adapter.write_file workspace_id path writing.content (written_with encoding) s.sandbox
          ≡ (ok tt, files)
        → let write = write_execute clock write_id (write_file_fn adapter) (ok writing) context s in
          (write.0
            ≡ ok (
                create_success_result (record {
                  path = path;
                  bytes_written = units writing.content;
                  encoding = encoding;
                })))
          × (write.1.sandbox ≡ files)
  unfolding write_execute checked write_path try_call write_file_fn
  write_done context writing w path s files h k e = rw (h, k) (rw e (refl, refl))

  pub read_done :
      (context : Option ToolContext) (reading : ReadToolParams) (workspace_id path content : String)
      (s : Session S ReadStart ReadToolResult)
      → workspace_of context ≡ some workspace_id
      → truthy reading.path ≡ some path
      → let encoding = or_else reading.encoding "utf-8" in
        (adapter.read_file workspace_id path (with_encoding encoding) s.sandbox).0 ≡ ok content
        → (read_execute clock read_id (read_file_fn adapter) (ok reading) context s).0
          ≡ ok (
              create_success_result (record {
                content = content;
                size = units content;
                encoding = encoding;
                truncated = false;
              }))
  unfolding read_execute checked read_path try_call read_file_fn
  read_done context reading w path content s h k e = rw (h, k) (rw e refl)

  -- A call of `write` that succeeds has written the file.
  pub write_succeeded :
      (context : Option ToolContext) (writing : WriteToolParams) (workspace_id path : String)
      (s : Session S WriteStart WriteToolResult) (result : ToolResult WriteToolResult)
      → workspace_of context ≡ some workspace_id
      → truthy writing.path ≡ some path
      → (write_execute clock write_id (write_file_fn adapter) (ok writing) context s).0 ≡ ok result
      → result.success ≡ true
      → let encoding = or_else writing.encoding "utf-8" in
        (files : S) × (adapter.write_file workspace_id path writing.content
            (written_with encoding)
            s.sandbox
          ≡ (ok tt, files))
  unfolding write_execute checked write_path try_call write_file_fn fail create_error_result
      succeeded
  write_succeeded context writing w path s result h k returns good =
      let encoding = or_else writing.encoding "utf-8" in
      let answer = adapter.write_file w path writing.content (written_with encoding) s.sandbox in
      elim (Result-cases answer.0) [
        | inl (done, e) ↦ (answer.1, ap (λ r. (r, answer.1)) e)
        | inr (thrown, e) ↦
            let failed : succeeded
                  (write_execute clock write_id (write_file_fn adapter) (ok writing) context s).0
                ≡ false =
              rw (h, k) (rw e refl) in
            let fine = ap succeeded returns ∙ good in ground (arith, failed, fine)
      ]
