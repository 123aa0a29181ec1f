-- ===== src/Packs.antt =====
-- services/orchestrator/src/packs: types.ts and errors.ts, the agent packs. The loader, the validator
-- and the assembler of the system prompt are the modules below.
pub mod Agreement
pub mod Assembler
pub mod Files
pub mod Loader
pub mod Ordering
pub mod Validator
use minerva.Base.{ℕ, String, Bool, List}

pub record AgentIdentity : Type 0 where
  pub name : String
  pub description : String
  pub stance : String
  pub rules : List String
  pub raw_content : String

pub record Skill : Type 0 where
  pub name : String
  pub category : String
  pub content : String
  pub path : String
  pub size : ℕ

-- A `Date` is a number of milliseconds.
pub record PackMetadata : Type 0 where
  pub loaded_at : ℕ
  pub skill_count : ℕ
  pub total_size : ℕ

pub record AgentPack : Type 0 where
  pub path : String
  pub identity : AgentIdentity
  pub skills : List Skill
  pub metadata : PackMetadata

pub data SkillOrdering : Type 0 where
  alphabetical category size : SkillOrdering

pub record AssemblyRules : Type 0 where
  pub identity_first : Bool
  pub include_skill_metadata : Bool
  pub skill_ordering : SkillOrdering
  pub max_prompt_length : ℕ

pub record PromptSection : Type 0 where
  pub name : String
  pub content : String
  pub order : ℕ

pub record SystemPrompt : Type 0 where
  pub identity : String
  pub skills : String
  pub assembly_rules : String
  pub full_prompt : String
  pub sections : List PromptSection

pub record PackLoaderConfig : Type 0 where
  pub max_skill_size : ℕ
  pub allowed_extensions : List String

-- The errors of errors.ts. `skill_too_large` is the error that tells the limit, and `other` is one of
-- the file system.
pub data PackError : Type 0 where
  pack_not_found : String → PackError
  missing_required_file : String → PackError
  skill_load_error : String → PackError → PackError
  skill_too_large : ℕ → PackError
  other : String → PackError

-- An error or a warning of the validator.
pub record PackValidationItem : Type 0 where
  pub message : String
  pub field : String
  pub code : String

pub record PackValidationResult : Type 0 where
  pub valid : Bool
  pub errors : List PackValidationItem
  pub warnings : List PackValidationItem
