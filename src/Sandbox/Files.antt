-- ===== src/Sandbox/Files.antt =====
-- services/orchestrator/src/sandbox/filesystem.ts: `FilesystemService`, with the errors of
-- services/orchestrator/src/sandbox/errors.ts that it throws. The calls of the sandbox's client are
-- the record `SandboxFs`.
use Prim.Native.String.{◌++◌ as ◌<>◌}
use minerva.Base.{
  ℕ, String, Bool, false, Option, none, some, ◌==◌, ◌||◌, ◌&&◌, not, if◌then◌else◌, ltb, nat_eq,
  or_else, truthy,
}
use minerva.Exec.{Result, ok, err, Exec, pure, throw, ◌>>◌}
use minerva.Tools.{Thrown}
use minerva.Tools.Registry.{FileReadOptions, FileWriteOptions}
use minerva.Sandbox.{validate_path}
use minerva.Sandbox.Paths.{is_slash}

-- An error of the service, as a value that is thrown.
abbrev pub sandbox_error : String → String → Thrown
sandbox_error code message = record {
  code = some code;
  message = message;
  details = none;
  text = message;
}

unfoldable pub path_traversal_error : String → String → Thrown
path_traversal_error attempted_path reason =
    sandbox_error "PATH_TRAVERSAL_DETECTED"
      ("Path traversal detected: " <> attempted_path <> " - " <> reason)

module _ (text_of : ℕ → String) where
  unfoldable pub file_too_large_error : String → ℕ → ℕ → Thrown
  file_too_large_error path size max_size = sandbox_error "FILE_TOO_LARGE" (
      "File too large: "
      <> path
      <> " ("
      <> text_of size
      <> " bytes, max "
      <> text_of max_size
      <> " bytes)")

pub record SandboxFs (S : Type 0) : Type 0 where
  pub get_file_details : String → Exec S Thrown ℕ
  pub download : String → Exec S Thrown String
  pub upload : String → String → Exec S Thrown Unit
  pub create_folder : String → Exec S Thrown Unit
  pub set_file_permissions : String → ℕ → Exec S Thrown Unit

-- `a || b` of two numbers.
abbrev pub or_number : Option ℕ → ℕ → ℕ
or_number none b = b
or_number (some a) b = if nat_eq a 0 then b else a

abbrev pub has_slash : String → Bool
has_slash String.[] = false
has_slash (String.◌∷◌ c s) = is_slash c || has_slash s

-- `path.substring(0, path.lastIndexOf('/'))`
unfoldable pub before_last_slash : String → String
before_last_slash String.[] = ""
before_last_slash (String.◌∷◌ c s) =
    let rest = before_last_slash s in if has_slash s then String.◌∷◌ c rest else ""

-- A call whose error is ignored.
abbrev pub ignore : {S : Type 0} → Exec S Thrown Unit → Exec S Thrown Unit
ignore call s = (ok tt, (call s).1)

abbrev pub full_path_of : (cwd root_path : String) → String → String
full_path_of cwd root_path user_path =
    root_path <> "/" <> (validate_path cwd user_path root_path).normalized_path

-- `max_file_size` is a field of the service, `root_path` the answer of `getWorkspaceRoot`, `cwd` the
-- working directory of the process. The printing of a number and `Buffer.byteLength` are arguments.
module _ {S : Type 0} (text_of : ℕ → String) (byte_length : String → String → ℕ)
    (cwd root_path : String) (max_file_size : ℕ) (fs : SandboxFs S) where
  -- The start of both methods.
  unfoldable pub require_valid : String → Exec S Thrown Unit
  unfolding path_traversal_error
  require_valid user_path =
      let validation = validate_path cwd user_path root_path in
      if not validation.is_valid
      then throw (path_traversal_error user_path (or_else (truthy validation.error) "Invalid path"))
      else pure tt

  abbrev pub within : String → ℕ → Result Thrown ℕ → Exec S Thrown Unit
  within user_path max_size (ok size) =
      if ltb max_size size
      then throw (file_too_large_error text_of user_path size max_size)
      else pure tt
  within user_path max_size (err error) = pure tt

  -- The check of the size before a read. Where the details are not found, the read goes on.
  unfoldable pub check_size : String → String → ℕ → Exec S Thrown Unit
  unfolding file_too_large_error
  check_size user_path full_path max_size s =
      let (details, s') = fs.get_file_details full_path s in within user_path max_size details s'

  unfoldable pub read_file : String → FileReadOptions → Exec S Thrown String
  unfolding require_valid check_size
  read_file user_path options = do
    require_valid user_path
    check_size user_path (full_path_of cwd root_path user_path)
        (or_number options.max_size max_file_size)
    fs.download (full_path_of cwd root_path user_path)

  unfoldable pub make_parents : String → Bool → Exec S Thrown Unit
  make_parents full_path create_dirs =
      let dir_path = before_last_slash full_path in
      if create_dirs && not (dir_path == "") && not (dir_path == root_path)
      then ignore (fs.create_folder dir_path)
      else pure tt

  unfoldable pub set_mode : String → Option ℕ → Exec S Thrown Unit
  set_mode full_path none = pure tt
  set_mode full_path (some mode) =
      if nat_eq mode 0 then pure tt else ignore (fs.set_file_permissions full_path mode)

  -- What follows the checks of `writeFile`.
  unfoldable pub store_file : String → String → FileWriteOptions → Exec S Thrown Unit
  unfolding make_parents set_mode
  store_file full_path content options = do
    make_parents full_path (or_else options.create_dirs false)
    fs.upload full_path content
    set_mode full_path options.mode

  unfoldable pub write_file : String → String → FileWriteOptions → Exec S Thrown Unit
  unfolding require_valid store_file
  write_file user_path content options =
      let size = byte_length content (or_else (truthy options.encoding) "utf8") in
      do
        require_valid user_path
        if ltb max_file_size size
            then throw (file_too_large_error text_of user_path size max_file_size)
            else store_file (full_path_of cwd root_path user_path) content options
