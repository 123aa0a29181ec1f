-- ===== src/Tests/PackFiles.antt =====
-- The results about packs at concrete inputs.
use Prim.Native.Nat.{Ordering, compare}
use Prim.Native.Char.{code}
use Prim.Native.String.{char_at, ◌++◌ as ◌<>◌}
use minerva.Base.{
  ℕ, String, ◌≡◌, ◌↔◌, ◌⊎◌, refl, true, false, List, [], ◌∷◌, map, not, arith, ◌==◌, if◌then◌else◌,
}
use minerva.Base.Text.{join}
use minerva.Dict.{get}
use minerva.Exec.{Result, ok, err}
use minerva.Packs.{
  AgentIdentity, Skill, AgentPack, SystemPrompt, missing_required_file, PackValidationResult,
}
use minerva.Packs.Files.{FileSystem, Stats}
use minerva.Packs.Ordering.{IsCollation}
use minerva.Packs.Assembler.{default_assembly_rules, build_sections, group_skills_by_category}
use minerva.Packs.Assembler.Categories.{of_category, nonempty, group_skills_by_category_lem}
use minerva.Packs.Loader.{load_skills, load, default_loader_config}
use minerva.Packs.Loader.Results.{with_skill_file, AllFrom, load_skills_lem}
use minerva.Packs.Validator.{validate_sync}
use minerva.Packs.Agreement.{validate-load}

-- A collation by the first letter.
abbrev by_letter : String → String → Ordering
by_letter a b = compare (code (char_at a 0)) (code (char_at b 0))

by_letter-IsCollation : IsCollation by_letter
by_letter-IsCollation = record { turns = λ a b. ground arith; trans = λ a b c p q. ground arith }

abbrev review : Skill
review = record {
  name = "review";
  category = "review";
  content = "Read twice.";
  path = "pack/.agents/skills/review/SKILL.md";
  size = 11;
}

abbrev audit : Skill
audit = record {
  name = "audit";
  category = "audit";
  content = "Count.";
  path = "pack/.agents/skills/audit/SKILL.md";
  size = 6;
}

group_skills_by_category_lem_example :
    get "audit" (group_skills_by_category (review ∷ audit ∷ []))
    ≡ nonempty (of_category "audit" (review ∷ audit ∷ []))
group_skills_by_category_lem_example = group_skills_by_category_lem "audit" (review ∷ audit ∷ [])

abbrev no_number : ℕ → String
no_number n = "0"

abbrev identity : AgentIdentity
identity = record {
  name = "Ann";
  description = "An agent.";
  stance = "";
  rules = "Be kind" ∷ [];
  raw_content = "";
}

abbrev pack : AgentPack
pack = record {
  path = "pack";
  identity = identity;
  skills = review ∷ audit ∷ [];
  metadata = record { loaded_at = 0; skill_count = 2; total_size = 17 };
}

abbrev prompt : SystemPrompt
prompt = build_sections by_letter no_number no_number default_assembly_rules pack

-- A pack with one skill in `pack/.agents/skills/audit`, and a file beside it.
abbrev stat_of : String → Result String Stats
stat_of path =
    if path == "pack/.agents/skills/audit/SKILL.md"
    then ok (record { is_directory = false; size = 6 })
    else if path == "pack/.agents/skills/notes.txt"
    then ok (record { is_directory = false; size = 9 })
    else ok (record { is_directory = true; size = 0 })

abbrev fs : FileSystem
fs = record {
  exists = λ path. true;
  stat = stat_of;
  read_file = λ path. ok "Count.";
  readdir = λ path. ok ("audit" ∷ "notes.txt" ∷ []);
  join = λ a b. a <> "/" <> b;
  parent_name = λ path. "audit";
}

loaded_skills : load_skills fs default_loader_config "pack/.agents/skills" ≡ ok (audit ∷ [])
unfolding load_skills
loaded_skills = refl

load_skills_lem_example :
    ((true ≡ false) × ((audit ∷ []) ≡ []))
    ⊎ ((categories : List String) × (◌≡◌ {A = Result String (List String)}
          (ok ("audit" ∷ "notes.txt" ∷ []))
          (ok categories))
        × (map (λ skill. skill.category) (audit ∷ [])
            ≡ with_skill_file fs default_loader_config "pack/.agents/skills" categories)
        × AllFrom fs default_loader_config "pack/.agents/skills" (audit ∷ []))
load_skills_lem_example =
    load_skills_lem fs default_loader_config "pack/.agents/skills" (audit ∷ []) loaded_skills

abbrev loaded_pack : AgentPack
loaded_pack = record {
  path = "pack";
  identity = identity;
  skills = audit ∷ [];
  metadata = record { loaded_at = 5; skill_count = 1; total_size = 6 };
}

-- The same without AGENTS.md.
abbrev bare : FileSystem
bare = record fs { exists = λ path. not (path == "pack/AGENTS.md") }

abbrev faults : PackValidationResult
faults = record {
  valid = false;
  errors =
      record {
        message = "Missing required file: AGENTS.md";
        field = "AGENTS.md";
        code = "MISSING_REQUIRED_FILE";
      }
      ∷ [];
  warnings = [];
}

validated : validate_sync bare "pack" ≡ ok faults
unfolding validate_sync
validated = refl

validate-load_example : (false ≡ false) ↔ (
    load bare default_loader_config (λ content. identity) 5 "pack"
    ≡ err (missing_required_file "AGENTS.md"))
validate-load_example =
    validate-load bare default_loader_config (λ content. identity) 5 "pack" faults
      (record { is_directory = true; size = 0 }) validated refl refl
