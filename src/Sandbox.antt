-- ===== src/Sandbox.antt =====
-- services/orchestrator/src/sandbox/security.ts: the check of the paths that a client names, over the
-- operations of node:path on POSIX paths, which Sandbox/Paths writes out on the parts between slashes.
pub mod Access
pub mod Adapter
pub mod Composition
pub mod Containment
pub mod Files
pub mod Paths
pub mod Reduced
pub mod RoundTrip
pub mod Segments
pub mod Streaming
use minerva.Base.{
  ℕ, String, Bool, true, false, Option, none, some, List, [], ◌∷◌, ◌==◌, ◌||◌, if◌then◌else◌,
  nat_eq,
}
use Prim.Native.Char.{code}
use text.Mathlib.Text.{starts_with}
use minerva.Base.Text.{trim}
use minerva.Sandbox.Paths.{is_absolute, normalize, join_paths, relative}

pub record PathValidationResult : Type 0 where
  pub is_valid : Bool
  pub normalized_path : String
  pub error : Option String

abbrev pub invalid : String → PathValidationResult
invalid error = record { is_valid = false; normalized_path = ""; error = some error }

-- `userPath.includes('\0')`
unfoldable pub has_null : String → Bool
has_null String.[] = false
has_null (String.◌∷◌ c s) = nat_eq (code c) 0 || has_null s

-- `cwd` is the working directory of the process.
unfoldable pub validate_path : (cwd : String) → String → String → PathValidationResult
unfolding has_null
validate_path cwd user_path workspace_root =
    let normalized = normalize user_path in
    let resolved_path = join_paths workspace_root normalized in
    let relative_to_root = relative cwd workspace_root resolved_path in
    if has_null user_path
    then invalid "Path contains null bytes"
    else if is_absolute user_path
    then invalid "Absolute paths not allowed"
    else if starts_with normalized ".."
    then invalid "Path traversal detected"
    else if starts_with relative_to_root ".." || is_absolute relative_to_root
    then invalid "Path escapes workspace root"
    else record { is_valid = true; normalized_path = normalized; error = none }
