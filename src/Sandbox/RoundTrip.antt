-- ===== src/Sandbox/RoundTrip.antt =====
-- services/orchestrator/src/tools over services/orchestrator/src/sandbox: a file that the tool `write`
-- has written is read by the tool `read`.
use minerva.Base.{
  ℕ, String, ◌≡◌, refl, sym, subst, ◌∙◌, true, false, Option, some, ltb, arith, inl, inr, or_else,
  truthy, Bool-cases,
}
use minerva.Base.Text.{units}
use minerva.Exec.{Result, ok, err, continue, pure}
use minerva.Tools.{ToolContext, ToolResult, Thrown, Session, workspace_of, create_success_result}
use minerva.Tools.ReadFile.{ReadToolParams, ReadStart, ReadToolResult, read_execute}
use minerva.Tools.WriteFile.{WriteToolParams, WriteStart, WriteToolResult, write_execute}
use minerva.Tools.Registry.{SandboxAdapter, read_file_fn, write_file_fn}
use minerva.Tools.Transfers.{with_encoding, written_with, write_done, read_done, write_succeeded}
use minerva.Sandbox.{validate_path}
use minerva.Sandbox.Files.{
  SandboxFs, full_path_of, require_valid, check_size, store_file, read_file, write_file,
  make_parents, set_mode,
}
use minerva.Sandbox.Streaming.{SandboxProcess}
use minerva.Sandbox.Adapter.{daytona_adapter}

-- What an upload without an error leaves in the sandbox: the content is downloaded again, and the
-- details of the file tell its size in bytes and change nothing.
pub record StoresFiles {S : Type 0} (byte_length : String → String → ℕ) (fs : SandboxFs S)
    : Type 0 where
  pub downloads :
      (path content : String) (s s' : S)
      → fs.upload path content s ≡ (ok tt, s')
      → (fs.download path s').0 ≡ ok content
  pub measures :
      (path content : String) (s s' : S)
      → fs.upload path content s ≡ (ok tt, s')
      → fs.get_file_details path s' ≡ (ok (byte_length content "utf-8"), s')

settled : {S : Type 0} (p : Result Thrown Unit × S) → continue p.0 (λ done. pure tt) p.1 ≡ p
settled (ok tt, s) = refl
settled (err thrown, s) = refl

module _ {S : Type 0} (text_of : ℕ → String) (byte_length : String → String → ℕ)
    (cwd root_path : String) (max_file_size : ℕ) (fs : SandboxFs S) where
  abbrev write : String → String → S → (Result Thrown Unit × S)
  write user_path content =
      write_file text_of byte_length cwd root_path max_file_size fs user_path content
        (written_with "utf-8")

  write_refused :
      (user_path content : String) (s : S)
      → (validate_path cwd user_path root_path).is_valid ≡ false
      → (error : Thrown) × (write user_path content s ≡ (err error, s))
  unfolding write_file require_valid
  write_refused user_path content s h = rw h (_, refl)

  write_large :
      (user_path content : String) (s : S)
      → (validate_path cwd user_path root_path).is_valid ≡ true
      → ltb max_file_size (byte_length content "utf-8") ≡ true
      → (error : Thrown) × (write user_path content s ≡ (err error, s))
  unfolding write_file require_valid
  write_large user_path content s h k = rw (h, k) (_, refl)

  write_uploads :
      (user_path content : String) (s : S)
      → (validate_path cwd user_path root_path).is_valid ≡ true
      → ltb max_file_size (byte_length content "utf-8") ≡ false
      → write user_path content s ≡ fs.upload (full_path_of cwd root_path user_path) content s
  unfolding write_file require_valid store_file make_parents set_mode
  write_uploads user_path content s h k =
      rw (h, k) (settled (fs.upload (full_path_of cwd root_path user_path) content s))

  -- A write without an error has uploaded the file, which is within the limit.
  stored :
      (user_path content : String) (s s' : S)
      → write user_path content s ≡ (ok tt, s')
      → ((validate_path cwd user_path root_path).is_valid ≡ true)
        × (ltb max_file_size (byte_length content "utf-8") ≡ false)
        × (fs.upload (full_path_of cwd root_path user_path) content s ≡ (ok tt, s'))
  stored user_path content s s' e =
      elim (Bool-cases (validate_path cwd user_path root_path).is_valid) [
        | inr refused ↦
            let fails = (write_refused user_path content s refused).1 in ground (arith, fails, e)
        | inl valid ↦ elim (Bool-cases (ltb max_file_size (byte_length content "utf-8"))) [
          | inl large ↦
              let fails = (write_large user_path content s valid large).1 in
              ground (arith, fails, e)
          | inr fits ↦ (valid, fits, sym (write_uploads user_path content s valid fits) ∙ e)
        ]
      ]

  -- Such a file is read back whole.
  read_back :
      (user_path content : String) (s s' : S)
      → StoresFiles byte_length fs
      → write user_path content s ≡ (ok tt, s')
      → (read_file text_of byte_length cwd root_path max_file_size fs user_path
          (with_encoding "utf-8")
          s').0
        ≡ ok content
  unfolding read_file require_valid check_size
  read_back user_path content s s' law e =
      let (valid, fits, u) = stored user_path content s s' e in
      let path = full_path_of cwd root_path user_path in
      rw valid (rw (law.measures path content s s' u) (rw fits (law.downloads path content s s' u)))

module _ {S : Type 0} (text_of : ℕ → String) (byte_length : String → String → ℕ)
    (cwd root_path : String) (max_file_size : ℕ) (fs : SandboxFs S) (process : SandboxProcess S)
    (session_id : String) (clock : ℕ → ℕ) (write_id read_id : String) where
  abbrev pub adapter : SandboxAdapter S
  adapter = daytona_adapter text_of byte_length cwd root_path max_file_size fs process session_id

  -- Where the sandbox gives back what was uploaded without an error and tells its size in bytes, and
  -- the tools `write` and `read` of the registry are called over the adapter with the same path in
  -- one workspace, the first in the encoding utf-8: if `write` succeeds, `read` then succeeds with
  -- exactly the written content as the whole file, whatever stood in the file before and whatever
  -- `append`, `limit` and the encoding of the read are.
  pub write_then_read :
      (context : Option ToolContext) (writing : WriteToolParams) (reading : ReadToolParams)
      (workspace_id path : String) (s : Session S WriteStart WriteToolResult)
      (t : Session S ReadStart ReadToolResult) (result : ToolResult WriteToolResult)
      → StoresFiles byte_length fs
      → workspace_of context ≡ some workspace_id
      → truthy writing.path ≡ some path
      → truthy reading.path ≡ some path
      → or_else writing.encoding "utf-8" ≡ "utf-8"
      → let write = write_execute clock write_id (write_file_fn adapter) (ok writing) context s in
        write.0 ≡ ok result
        → result.success ≡ true
        → let write = write_execute clock write_id (write_file_fn adapter) (ok writing) context s in
          (read_execute clock read_id
            (read_file_fn adapter)
            (ok reading)
            context
            (record t { sandbox = write.1.sandbox })).0
          ≡ ok (
              create_success_result (record {
                content = writing.content;
                size = units writing.content;
                encoding = or_else reading.encoding "utf-8";
                truncated = false;
              }))
  unfolding daytona_adapter
  write_then_read context writing reading w path s t result law h k l plain returns good =
      let (files, e) =
        write_succeeded clock write_id read_id adapter context writing w path s result h k returns
          good in
      let (_, left) =
        write_done clock write_id read_id adapter context writing w path s files h k e in
      let e' =
        subst
          (λ c.
            adapter.write_file w path writing.content (written_with c) s.sandbox ≡ (ok tt, files))
          plain e in
      let back =
        read_back text_of byte_length cwd root_path max_file_size fs path writing.content s.sandbox
          files law e' in
      read_done clock write_id read_id adapter context reading w path writing.content _ h l
        (rw left back)
