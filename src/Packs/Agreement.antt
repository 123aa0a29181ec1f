-- ===== src/Packs/Agreement.antt =====
-- services/orchestrator/src/packs: how the validator's answer fits the loader's.
use minerva.Base.{
  ℕ, String, ◌≡◌, ◌≢◌, refl, subst, ◌↔◌, Bool, true, false, List, [], ◌∷◌, arith, inl, inr,
  Bool-cases,
}
use minerva.Exec.{ok, err, Result-cases}
use minerva.Packs.{
  AgentIdentity, PackLoaderConfig, PackError, pack_not_found, missing_required_file,
  skill_load_error, skill_too_large, other, PackValidationResult,
}
use minerva.Packs.Files.{Stats, FileSystem}
use minerva.Packs.Loader.{
  load, load_skills, load_categories, load_category, read_skill_file, try_skill_file,
}
use minerva.Packs.Validator.{validate_sync, validate_found, check_required_files, check_files}

-- An error of reading a file or a directory.
is_read_error : PackError → Bool
is_read_error (skill_load_error path cause) = true
is_read_error (other message) = true
is_read_error (pack_not_found path) = false
is_read_error (missing_required_file file) = false
is_read_error (skill_too_large limit) = false

module _ (fs : FileSystem) (config : PackLoaderConfig) (skills_dir : String) where
  read_skill_file-error :
      (path category : String) (e : PackError)
      → read_skill_file fs config path category ≡ err e
      → is_read_error e ≡ true
  unfolding read_skill_file is_read_error
  read_skill_file-error path category e h =
      elim (Result-cases (try_skill_file fs config path category)) [
        | inl (skill, f) ↦ absurd ground arith
        | inr (cause, f) ↦
            let same : skill_load_error path cause ≡ e = ground arith in
            subst (λ p. is_read_error p ≡ true) same refl
      ]

  load_category-error :
      (category : String) (e : PackError)
      → load_category fs config skills_dir category ≡ err e
      → is_read_error e ≡ true
  unfolding load_category is_read_error
  load_category-error category e h =
      let path = fs.join (fs.join skills_dir category) "SKILL.md" in
      elim (Result-cases (fs.stat (fs.join skills_dir category))) [
        | inr (message, f) ↦
            let same : other message ≡ e = ground arith in
            subst (λ p. is_read_error p ≡ true) same refl
        | inl (stats, f) ↦ elim (Result-cases (read_skill_file fs config path category)) [
          | inl (skill, g) ↦ absurd ground arith
          | inr (cause, g) ↦ read_skill_file-error path category e (ground arith)
        ]
      ]

  load_categories-error :
      (categories : List String) (e : PackError)
      → load_categories fs config skills_dir categories ≡ err e
      → is_read_error e ≡ true
  unfolding load_categories
  load_categories-error [] e h = absurd ground arith
  load_categories-error (category ∷ categories) e h =
      elim (Result-cases (load_category fs config skills_dir category)) [
        | inr (_, f) ↦ load_category-error category e (ground arith)
        | inl (found, f) ↦ elim (Result-cases (load_categories fs config skills_dir categories)) [
          | inr (_, g) ↦ load_categories-error categories e (ground arith)
          | inl (rest, g) ↦ absurd ground arith
        ]
      ]

  load_skills-error :
      (e : PackError) → load_skills fs config skills_dir ≡ err e → is_read_error e ≡ true
  unfolding load_skills is_read_error
  load_skills-error e h = elim (Result-cases (fs.readdir skills_dir)) [
    | inl (categories, f) ↦ load_categories-error categories e (ground arith)
    | inr (message, f) ↦
        let same : other message ≡ e = ground arith in subst (λ p. is_read_error p ≡ true) same refl
  ]

module _ (fs : FileSystem) (config : PackLoaderConfig) (parse_identity : String → AgentIdentity)
    (now : ℕ) (pack_path : String) where
  abbrev skills_dir : String
  skills_dir = fs.join (fs.join pack_path ".agents") "skills"

  no_fault :
      fs.exists (fs.join pack_path "AGENTS.md") ≡ true
      → load fs config parse_identity now pack_path ≢ err (missing_required_file "AGENTS.md")
  unfolding load is_read_error
  no_fault found e = elim (Result-cases (fs.read_file (fs.join pack_path "AGENTS.md"))) [
    | inr (_, f) ↦ ground arith
    | inl (content, f) ↦ elim (Result-cases (load_skills fs config skills_dir)) [
      | inl (skills, g) ↦ ground arith
      | inr (cause, g) ↦
          let same : cause ≡ missing_required_file "AGENTS.md" = ground arith in
          let read : is_read_error (missing_required_file "AGENTS.md") ≡ true =
            subst (λ p. is_read_error p ≡ true) same
              (load_skills-error fs config skills_dir cause g) in
          ground arith
    ]
  ]

  -- Of a directory, the validator finds a fault exactly where the loader throws that AGENTS.md is
  -- missing.
  pub validate-load :
      (result : PackValidationResult) (stats : Stats)
      → validate_sync fs pack_path ≡ ok result
      → fs.stat pack_path ≡ ok stats
      → stats.is_directory ≡ true
      → (result.valid ≡ false)
        ↔ (load fs config parse_identity now pack_path ≡ err (missing_required_file "AGENTS.md"))
  unfolding load validate_sync validate_found check_required_files check_files
  validate-load result stats h f directory = (
    λ v. ground arith,
    λ e. elim (Bool-cases (fs.exists (fs.join pack_path "AGENTS.md"))) [
      | inr g ↦ ground arith
      | inl g ↦ absurd (no_fault g e)
    ],
  )
