-- ===== src/Packs/Loader.antt =====
-- services/orchestrator/src/packs/loader.ts: the class `PackLoader`. The parser of AGENTS.md, which
-- is a set of regular expressions, is an argument.
pub mod Results
use minerva.Base.{
  ℕ, String, Bool, true, false, Option, none, some, List, [], ◌∷◌, ◌+◌, ◌*◌, ltb, not,
  if◌then◌else◌, length,
}
use minerva.Exec.{Result, ok, err}
use minerva.Packs.{
  AgentIdentity, Skill, PackMetadata, AgentPack, PackLoaderConfig, PackError, pack_not_found,
  missing_required_file, skill_load_error, skill_too_large,
}
use minerva.Packs.Files.{Stats, FileSystem, ◌>>=◌, thrown}

abbrev pub default_loader_config : PackLoaderConfig
default_loader_config = record { max_skill_size = 100 * 1024; allowed_extensions = ".md" ∷ [] }

-- `skills.reduce((sum, skill) => sum + skill.size, 0)`
unfoldable pub total : List Skill → ℕ
total [] = 0
total (skill ∷ skills) = skill.size + total skills

-- `skills.push(skill)`, where there is one.
abbrev pub push : Option Skill → List Skill → List Skill
push none skills = skills
push (some skill) skills = skill ∷ skills

module _ (fs : FileSystem) (config : PackLoaderConfig) where
  unfoldable pub validate_skill_size : ℕ → Result PackError Unit
  validate_skill_size size =
      if ltb config.max_skill_size size then err (skill_too_large config.max_skill_size) else ok tt

  -- The `try` block of `readSkillFile`.
  unfoldable pub try_skill_file : String → String → Result PackError Skill
  unfolding validate_skill_size
  try_skill_file skill_path category = do
    stat ← thrown (fs.stat skill_path)
    _ ← validate_skill_size stat.size
    content ← thrown (fs.read_file skill_path)
    ok record {
      name = fs.parent_name skill_path;
      category = category;
      content = content;
      path = skill_path;
      size = stat.size;
    }

  unfoldable pub read_skill_file : String → String → Result PackError Skill
  unfolding try_skill_file
  read_skill_file skill_path category = elim (try_skill_file skill_path category) [
    | ok skill ↦ ok skill
    | err cause ↦ err (skill_load_error skill_path cause)
  ]

  -- What the loop of `loadSkills` reads for one category: no skill where there is no directory or
  -- no file SKILL.md.
  unfoldable pub load_category : String → String → Result PackError (Option Skill)
  unfolding read_skill_file
  load_category skills_dir category = do
    stat ← thrown (fs.stat (fs.join skills_dir category))
    let skill_path = fs.join (fs.join skills_dir category) "SKILL.md" in
        if not stat.is_directory
        then ok none
        else if fs.exists skill_path
        then (read_skill_file skill_path category >>= λ skill. ok (some skill))
        else ok none

  unfoldable pub load_categories : String → List String → Result PackError (List Skill)
  unfolding load_category
  load_categories skills_dir [] = ok []
  load_categories skills_dir (category ∷ categories) = do
    skill ← load_category skills_dir category
    skills ← load_categories skills_dir categories
    ok (push skill skills)

  unfoldable pub load_skills : String → Result PackError (List Skill)
  unfolding load_categories
  load_skills skills_dir =
      if not (fs.exists skills_dir)
      then ok []
      else (thrown (fs.readdir skills_dir) >>= load_categories skills_dir)

  unfoldable pub load :
      (parse_identity : String → AgentIdentity) (now : ℕ) → String → Result PackError AgentPack
  unfolding load_skills total
  load parse_identity now pack_path =
      let agents_md_path = fs.join pack_path "AGENTS.md" in
      let skills_dir = fs.join (fs.join pack_path ".agents") "skills" in
      if not (fs.exists pack_path)
      then err (pack_not_found pack_path)
      else if not (fs.exists agents_md_path)
      then err (missing_required_file "AGENTS.md")
      else do
        content ← thrown (fs.read_file agents_md_path)
        skills ← if fs.exists skills_dir then load_skills skills_dir else ok []
        ok record {
          path = pack_path;
          identity = parse_identity content;
          skills = skills;
          metadata = record {
            loaded_at = now;
            skill_count = length skills;
            total_size = total skills;
          };
        }
