-- ===== src/Packs/Validator.antt =====
-- services/orchestrator/src/packs/validator.ts: the class `PackValidator`.
use minerva.Base.{String, Bool, true, false, List, [], ◌∷◌, not, if◌then◌else◌}
use Prim.Native.String.{◌++◌ as ◌<>◌}
use minerva.Exec.{Result, ok, err}
use minerva.Packs.{PackError, pack_not_found, PackValidationItem, PackValidationResult}
use minerva.Packs.Files.{Stats, FileSystem, ◌>>=◌, thrown}

abbrev required_files : List String
required_files = "AGENTS.md" ∷ []

module _ (fs : FileSystem) where
  unfoldable pub check_files : String → List String → List PackValidationItem
  check_files pack_path [] = []
  check_files pack_path (file ∷ files) =
      let errors = check_files pack_path files in
      if fs.exists (fs.join pack_path file)
      then errors
      else record {
        message = "Missing required file: " <> file;
        field = file;
        code = "MISSING_REQUIRED_FILE";
      }
        ∷ errors

  unfoldable pub check_required_files : String → List PackValidationItem
  unfolding check_files
  check_required_files pack_path = check_files pack_path required_files

  unfoldable pub check_directory_structure : String → List PackValidationItem
  check_directory_structure pack_path =
      if fs.exists (fs.join (fs.join pack_path ".agents") "skills")
      then []
      else record {
        message = "No .agents/skills directory found - pack will have no skills";
        field = "skills";
        code = "NO_SKILLS_DIRECTORY";
      }
        ∷ []

  abbrev is_empty : List PackValidationItem → Bool
  is_empty [] = true
  is_empty (item ∷ items) = false

  -- The checks of a path that exists.
  unfoldable pub validate_found : String → Stats → PackValidationResult
  unfolding check_required_files check_directory_structure
  validate_found pack_path stats =
      let errors = check_required_files pack_path in
      if not stats.is_directory
      then record {
        valid = false;
        errors =
            record {
              message = "Pack path must be a directory";
              field = "packPath";
              code = "NOT_A_DIRECTORY";
            }
            ∷ [];
        warnings = [];
      }
      else record {
        valid = is_empty errors;
        errors = errors;
        warnings = check_directory_structure pack_path;
      }

  -- `validateSync`; `validate` turns its error into a rejection.
  unfoldable pub validate_sync : String → Result PackError PackValidationResult
  unfolding validate_found
  validate_sync pack_path =
      if not (fs.exists pack_path)
      then err (pack_not_found pack_path)
      else (thrown (fs.stat pack_path) >>= λ stats. ok (validate_found pack_path stats))
