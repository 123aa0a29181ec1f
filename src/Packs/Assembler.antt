-- ===== src/Packs/Assembler.antt =====
-- services/orchestrator/src/packs/assembler.ts: the class `SystemPromptAssembler`, which writes the
-- system prompt of a pack. The result of `localeCompare`, of `toISOString` and of printing a number
-- are arguments.
pub mod Categories
pub mod Contents
pub mod Placement
pub mod Results
use Prim.Native.Nat.{Ordering, compare}
use Prim.Native.String.{◌++◌ as ◌<>◌}
use minerva.Base.{
  ℕ, String, Bool, true, false, Option, none, some, List, [], ◌∷◌, ◌++◌, map, ltb, ◌==◌,
  if◌then◌else◌, length, or_else,
}
use minerva.Base.Sorting.{sort}
use minerva.Dict.{Dict, get, set}
use minerva.Exec.{Result, ok, err}
use minerva.Packs.{
  AgentIdentity, Skill, PackMetadata, AgentPack, SkillOrdering, AssemblyRules, PromptSection,
  SystemPrompt,
}
use minerva.Base.Text.{join, trim, units}
use minerva.Packs.Ordering.{order_skills}

abbrev pub default_assembly_rules : AssemblyRules
default_assembly_rules = record {
  identity_first = true;
  include_skill_metadata = false;
  skill_ordering = SkillOrdering.category;
  max_prompt_length = 128000;
}

unfoldable pub build_identity_section : AgentIdentity → String
unfolding join
build_identity_section identity =
    let stance =
      if identity.stance == "" then [] else "" ∷ "## Stance" ∷ "" ∷ identity.stance ∷ [] in
    let rules : List String = elim identity.rules [
      | [] ↦ []
      | rule ∷ more ↦ "" ∷ "## Rules" ∷ "" ∷ map (λ r. "- " <> r) (rule ∷ more)
    ] in
    join "\n" (("# " <> identity.name) ∷ "" ∷ identity.description ∷ (stance ++ rules))

-- One round of the loop of `groupSkillsByCategory`.
unfoldable pub add_skill : Skill → Dict (List Skill) → Dict (List Skill)
add_skill skill groups =
    set skill.category (or_else (get skill.category groups) [] ++ skill ∷ []) groups

unfoldable pub group_all : List Skill → Dict (List Skill) → Dict (List Skill)
unfolding add_skill
group_all [] groups = groups
group_all (skill ∷ skills) groups = group_all skills (add_skill skill groups)

unfoldable pub group_skills_by_category : List Skill → Dict (List Skill)
unfolding group_all
group_skills_by_category skills = group_all skills []

unfoldable pub skill_lines : List Skill → List String
skill_lines [] = []
skill_lines (skill ∷ skills) =
    ("#### " <> skill.name) ∷ "" ∷ skill.content ∷ "" ∷ skill_lines skills

unfoldable pub category_lines : Dict (List Skill) → List String
unfolding skill_lines
category_lines [] = []
category_lines ((category, skills) ∷ groups) =
    ("### " <> category) ∷ "" ∷ (skill_lines skills ++ category_lines groups)

unfoldable pub build_skills_section : List Skill → String
unfolding join category_lines group_skills_by_category
build_skills_section [] = ""
build_skills_section (skill ∷ skills) =
    join "\n" ("## Skills" ∷ "" ∷ category_lines (group_skills_by_category (skill ∷ skills)))

unfoldable pub ordering_name : SkillOrdering → String
ordering_name SkillOrdering.alphabetical = "alphabetical"
ordering_name SkillOrdering.category = "category"
ordering_name SkillOrdering.size = "size"

module _ (print_number : ℕ → String) (to_iso_string : ℕ → String) where
  -- `JSON.stringify(this.rules)`
  unfoldable pub rules_json : AssemblyRules → String
  unfolding ordering_name
  rules_json rules =
      let json : Bool → String = λ b. if b then "true" else "false" in
      "{\"identityFirst\":"
      <> json rules.identity_first
      <> ",\"includeSkillMetadata\":"
      <> json rules.include_skill_metadata
      <> ",\"skillOrdering\":\""
      <> ordering_name rules.skill_ordering
      <> "\",\"maxPromptLength\":"
      <> print_number rules.max_prompt_length
      <> "}"

  unfoldable pub loaded_skill_line : Skill → String
  loaded_skill_line skill =
      "- " <> skill.name <> " (" <> skill.category <> "): " <> print_number skill.size <> " bytes"

  unfoldable pub build_assembly_rules_section : AssemblyRules → AgentPack → String
  unfolding join rules_json loaded_skill_line
  build_assembly_rules_section rules pack =
      let loaded : List String = elim pack.skills [
        | [] ↦ []
        | skill ∷ skills ↦ "### Loaded Skills" ∷ "" ∷ map loaded_skill_line (skill ∷ skills)
      ] in
      join "\n" (
        "## Assembly Information"
        ∷ ""
        ∷ ("- **Loaded at**: " <> to_iso_string pack.metadata.loaded_at)
        ∷ ("- **Pack path**: " <> pack.path)
        ∷ ("- **Skills loaded**: " <> print_number pack.metadata.skill_count)
        ∷ ("- **Total size**: " <> print_number pack.metadata.total_size <> " bytes")
        ∷ ("- **Assembly rules**: " <> rules_json rules)
        ∷ ""
        ∷ loaded)

unfoldable pub section_lines : List PromptSection → List String
section_lines [] = []
section_lines (section ∷ sections) =
    let rest = section_lines sections in
    if section.content == "" then rest else section.content ∷ "" ∷ rest

unfoldable pub build_full_prompt : List PromptSection → String
unfolding join trim section_lines
build_full_prompt sections =
    trim (join "\n" (section_lines (sort (λ a b. compare a.order b.order) sections)))

abbrev pub prompt_section : String → String → ℕ → PromptSection
prompt_section name content order = record { name = name; content = content; order = order }

module _ (locale_compare : String → String → Ordering) (print_number to_iso_string : ℕ → String)
    (rules : AssemblyRules) where
  -- The texts of the prompt's parts: the identity, the skills, and the assembly's own.
  unfoldable pub build_sections : AgentPack → SystemPrompt
  unfolding order_skills build_identity_section build_skills_section build_assembly_rules_section
      build_full_prompt
  build_sections pack =
      let identity = build_identity_section pack.identity in
      let skills = build_skills_section (order_skills locale_compare rules pack.skills) in
      let assembly_rules =
        if rules.include_skill_metadata
        then build_assembly_rules_section print_number to_iso_string rules pack
        else "" in
      let sections =
        prompt_section "identity" identity 0
        ∷ prompt_section "skills" skills 1
        ∷ (if rules.include_skill_metadata
            then prompt_section "assembly-rules" assembly_rules 2 ∷ []
            else []) in
      record {
        identity = identity;
        skills = skills;
        assembly_rules = assembly_rules;
        full_prompt = build_full_prompt sections;
        sections = sections;
      }

  unfoldable pub assemble : AgentPack → Result String SystemPrompt
  unfolding build_sections units
  assemble pack =
      let prompt = build_sections pack in
      if ltb rules.max_prompt_length (units prompt.full_prompt)
      then err (
          "Assembled prompt exceeds maximum length of "
          <> print_number rules.max_prompt_length
          <> " characters")
      else ok prompt
