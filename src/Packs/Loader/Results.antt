-- ===== src/Packs/Loader/Results.antt =====
-- services/orchestrator/src/packs/loader.ts: what a pack that was loaded holds.
use minerva.Base.{
  ℕ, String, ◌≡◌, ◌≤◌, ◌⊎◌, refl, ap₂, subst, Bool, true, false, Option, none, some, List, [], ◌∷◌,
  map, arith, ◌&&◌, if◌then◌else◌, length, inl, inr, Bool-cases,
}
use minerva.Exec.{ok, err, Result-cases}
use minerva.Packs.{AgentIdentity, Skill, AgentPack, PackLoaderConfig}
use minerva.Packs.Files.{Stats, FileSystem}
use minerva.Packs.Loader.{
  total, validate_skill_size, try_skill_file, read_skill_file, load_category, push, load_categories,
  load_skills,
}

module _ (fs : FileSystem) (config : PackLoaderConfig) (skills_dir : String) where
  -- The directory of a category holds a file SKILL.md.
  unfoldable pub has_skill_file : String → Bool
  has_skill_file category = elim (fs.stat (fs.join skills_dir category)) [
    | ok stats ↦ stats.is_directory && fs.exists (fs.join (fs.join skills_dir category) "SKILL.md")
    | err e ↦ false
  ]

  -- The skill is what the file system holds of its category, and is within the limit.
  unfoldable pub IsFrom : Skill → Type 0
  IsFrom skill =
      (skill.path ≡ fs.join (fs.join skills_dir skill.category) "SKILL.md")
      × (skill.name ≡ fs.parent_name skill.path)
      × (fs.read_file skill.path ≡ ok skill.content)
      × ((stats : Stats) × (fs.stat skill.path ≡ ok stats) × (stats.size ≡ skill.size))
      × (skill.size ≤ config.max_skill_size)

  read_skill_file_lem :
      (category : String) (skill : Skill)
      → read_skill_file fs config (fs.join (fs.join skills_dir category) "SKILL.md") category
        ≡ ok skill
      → (skill.category ≡ category) × IsFrom skill
  unfolding read_skill_file try_skill_file validate_skill_size IsFrom
  read_skill_file_lem category skill h =
      let path = fs.join (fs.join skills_dir category) "SKILL.md" in
      elim (Result-cases (fs.stat path)) [
        | inr (e, f) ↦ absurd ground arith
        | inl (stats, f) ↦ elim (Result-cases (fs.read_file path)) [
          | inr (e, g) ↦ absurd ground arith
          | inl (content, g) ↦
              let made : Skill = record {
                name = fs.parent_name path;
                category = category;
                content = content;
                path = path;
                size = stats.size;
              } in
              let same : made ≡ skill = ground arith in
              let bound : stats.size ≤ config.max_skill_size = ground arith in
              subst (λ s. (s.category ≡ category) × IsFrom s) same
                (refl, (refl, refl, g, (stats, f, refl), bound))
        ]
      ]

  abbrev ListsCategory : String → Option Skill → Type 0
  ListsCategory category none = has_skill_file category ≡ false
  ListsCategory category (some skill) =
      (has_skill_file category ≡ true) × (skill.category ≡ category) × IsFrom skill

  load_category_lem :
      (category : String) (found : Option Skill)
      → load_category fs config skills_dir category ≡ ok found
      → ListsCategory category found
  unfolding load_category has_skill_file
  load_category_lem category none h = elim (Result-cases (fs.stat (fs.join skills_dir category))) [
    | inr (e, f) ↦ absurd ground arith
    | inl (stats, f) ↦
        elim (Result-cases
          (read_skill_file fs config (fs.join (fs.join skills_dir category) "SKILL.md") category)) [
            | inl (skill, g) ↦ ground arith
            | inr (e, g) ↦ ground arith
          ]
  ]
  load_category_lem category (some skill) h =
      elim (Result-cases (fs.stat (fs.join skills_dir category))) [
        | inr (e, f) ↦ absurd ground arith
        | inl (stats, f) ↦
            elim (Result-cases (
              read_skill_file fs config (fs.join (fs.join skills_dir category) "SKILL.md")
                category)) [
                  | inl (read, g) ↦
                      let (same, from) = read_skill_file_lem category skill (ground arith) in
                      (ground arith, same, from)
                  | inr (e, g) ↦ absurd ground arith
                ]
      ]

  -- The categories that hold a file SKILL.md, in the order of the listing.
  unfoldable pub with_skill_file : List String → List String
  unfolding has_skill_file
  with_skill_file [] = []
  with_skill_file (category ∷ categories) =
      let rest = with_skill_file categories in
      if has_skill_file category then category ∷ rest else rest

  unfoldable pub AllFrom : List Skill → Type 0
  unfolding IsFrom
  AllFrom [] = Unit
  AllFrom (skill ∷ skills) = IsFrom skill × AllFrom skills

  Lists : List String → List Skill → Type 0
  Lists categories skills =
      (map (λ skill. skill.category) skills ≡ with_skill_file categories) × AllFrom skills

  Lists-push :
      (category : String) (categories : List String) (found : Option Skill) (skills : List Skill)
      → ListsCategory category found
      → Lists categories skills
      → Lists (category ∷ categories) (push found skills)
  unfolding Lists AllFrom with_skill_file
  Lists-push category categories none skills h (e, all) = (rw h e, all)
  Lists-push category categories (some skill) skills (h, f, from) (e, all) =
      (rw h (ap₂ ◌∷◌ f e), (from, all))

  load_categories_lem :
      (categories : List String) (skills : List Skill)
      → load_categories fs config skills_dir categories ≡ ok skills
      → Lists categories skills
  unfolding load_categories Lists AllFrom with_skill_file
  load_categories_lem [] skills h = subst (λ s. Lists [] s) nothing (refl, tt)
    where
      nothing : ◌≡◌ {A = List Skill} [] skills
      nothing = ground arith
  load_categories_lem (category ∷ categories) skills h =
      elim (Result-cases (load_category fs config skills_dir category)) [
        | inr (e, f) ↦ absurd ground arith
        | inl (found, f) ↦ elim (Result-cases (load_categories fs config skills_dir categories)) [
          | inr (e, g) ↦ absurd ground arith
          | inl (rest, g) ↦
              let same : push found rest ≡ skills = ground arith in
              subst (Lists (category ∷ categories)) same (
                Lists-push category categories found rest (load_category_lem category found f)
                  (load_categories_lem categories rest g))
        ]
      ]

  -- `loadSkills` returns a skill for each category of the listing whose directory holds a file
  -- SKILL.md, in that order, and no other; each skill has its file's content and size, and its size
  -- is within the limit.
  pub load_skills_lem :
      (skills : List Skill)
      → load_skills fs config skills_dir ≡ ok skills
      → ((fs.exists skills_dir ≡ false) × (skills ≡ []))
        ⊎ ((categories : List String) × (fs.readdir skills_dir ≡ ok categories)
            × (map (λ skill. skill.category) skills ≡ with_skill_file categories)
            × AllFrom skills)
  unfolding load_skills Lists
  load_skills_lem skills h = elim (Bool-cases (fs.exists skills_dir)) [
    | inr e ↦ inl (e, ground arith)
    | inl e ↦ elim (Result-cases (fs.readdir skills_dir)) [
      | inr (failure, g) ↦ absurd ground arith
      | inl (categories, g) ↦
          let (listed, all) = load_categories_lem categories skills (ground arith) in
          inr (categories, g, listed, all)
    ]
  ]

module _ (fs : FileSystem) (config : PackLoaderConfig) (parse_identity : String → AgentIdentity)
    (now : ℕ) where
  abbrev pub skills_dir : String → String
  skills_dir pack_path = fs.join (fs.join pack_path ".agents") "skills"

  made : String → String → List Skill → AgentPack
  made pack_path content skills = record {
    path = pack_path;
    identity = parse_identity content;
    skills = skills;
    metadata = record { loaded_at = now; skill_count = length skills; total_size = total skills };
  }
