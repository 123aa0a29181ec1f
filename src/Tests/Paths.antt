-- ===== src/Tests/Paths.antt =====
-- The results about the paths of a sandbox at concrete inputs.
use Prim.Native.String.{◌++◌ as ◌<>◌}
use minerva.Base.{
  String, ◌≡◌, refl, true, false, none, some, ◌⊎◌, ◌≤◌, ◌<◌, ℕ, or_else, List, [], ◌∷◌, ◌++◌,
}
use minerva.Sandbox.{invalid, has_null, validate_path}
use minerva.Sandbox.Paths.{normalize, relative, resolve, join_paths, is_absolute}
use minerva.Base.Text.{join}
use minerva.Sandbox.Segments.{IsName, All}
use minerva.Tools.Registry.{FileReadOptions, FileWriteOptions}
use minerva.Sandbox.Files.{
  SandboxFs, full_path_of, file_too_large_error, read_file, store_file, write_file,
  before_last_slash,
}
use minerva.Sandbox.Access.{Throws, IsBelow, file_access_lem}
use minerva.Dict.{Dict, get, set}
use minerva.Exec.{Result, ok, err}
use minerva.Tools.{Thrown}
use minerva.Sandbox.Containment.{validate_path_lem}

normalized : normalize "a/./b/../../../c//" ≡ "../c/"
unfolding normalize join
normalized = refl

gone_up : relative "/home" "/workspace/a" "/workspace/b" ≡ "../b"
unfolding relative join
gone_up = refl

traversal : validate_path "/home" "notes/../../etc" "/workspace" ≡ invalid "Path traversal detected"
unfolding validate_path normalize relative join join_paths
traversal = refl

-- A file whose name begins with two dots is refused although it lies in the workspace.
two_dots : validate_path "/home" "..notes" "/workspace" ≡ invalid "Path traversal detected"
unfolding validate_path normalize relative join join_paths
two_dots = refl

validate_path_lem_example :
    (has_null "notes/../skills//a.md" ≡ false)
    × ((names : List String) × All IsName names
        × (resolve "/home" (
              "/workspace/"
              <> (validate_path "/home" "notes/../skills//a.md" "/workspace").normalized_path)
            ≡ resolve "/home" "/workspace" ++ names))
unfolding validate_path normalize relative join join_paths is_absolute
validate_path_lem_example = validate_path_lem "/home" "notes/../skills//a.md" "/workspace" refl refl

-- A sandbox whose files stand in a table, without directories and permissions.
abbrev fs : SandboxFs (Dict String)
fs = record {
  get_file_details = λ path files. (ok 3, files);
  download = λ path files. (ok (or_else (get path files) ""), files);
  upload = λ path content files. (ok tt, set path content files);
  create_folder = λ path files. (ok tt, files);
  set_file_permissions = λ path mode files. (ok tt, files);
}

abbrev writing : FileWriteOptions
writing = record { encoding = none; create_dirs = some true; mode = some 420 }

abbrev reading : FileReadOptions
reading = record { encoding = none; max_size = none }

stored :
    write_file
      (λ n. "")
      (λ content encoding. 3)
      "/home"
      "/workspace"
      10
      fs
      "a/../b.md"
      "abc"
      writing
      []
    ≡ (ok tt, ("/workspace/b.md", "abc") ∷ [])
unfolding write_file validate_path normalize relative join join_paths is_absolute set
    before_last_slash
stored = refl

abbrev size_of : String → String → ℕ
size_of content encoding = 3

abbrev plain : ℕ → String
plain n = ""

file_access_lem_example :
    let full_path = full_path_of "/home" "/workspace" "a/../b.md" in
    let write = write_file plain size_of "/home" "/workspace" 10 fs "a/../b.md" "abc" writing [] in
    let read = read_file plain size_of "/home" "/workspace" 10 fs "a/../b.md" reading [] in
    let details : Result Thrown ℕ = ok 3 in
    (Throws [] write
      ⊎ (IsBelow "/home" "/workspace" full_path
          × (3 ≤ 10)
          × (write
              ≡ store_file plain size_of "/home" "/workspace" 10 fs full_path "abc" writing [])))
    × (Throws [] read
        ⊎ (IsBelow "/home" "/workspace" full_path
            × (((size : ℕ) × (details ≡ ok size)
                  × (10 < size)
                  × (read ≡ (err (file_too_large_error plain "a/../b.md" size 10), [])))
                ⊎ ((((size : ℕ) × (details ≡ ok size) × (size ≤ 10))
                      ⊎ ((error : Thrown) × (details ≡ err error)))
                    × (read ≡ fs.download full_path [])))))
unfolding is_absolute
file_access_lem_example =
    file_access_lem plain size_of "/home" "/workspace" 10 fs "a/../b.md" "abc" writing reading []
      refl
