-- ===== src/Packs/Files.antt =====
-- What services/orchestrator/src/packs asks of the modules `node:fs` and `node:path`: the answers of
-- one machine while a pack is read. An answer may be an error.
use minerva.Base.{ℕ, String, Bool, List}
use minerva.Exec.{Result, ok, err}
use minerva.Packs.{PackError, other}

pub record Stats : Type 0 where
  pub is_directory : Bool
  pub size : ℕ

pub record FileSystem : Type 0 where
  pub exists : String → Bool
  pub stat : String → Result String Stats
  pub read_file : String → Result String String
  pub readdir : String → Result String (List String)
  -- `path.join` of two paths
  pub join : String → String → String
  -- `path.basename(path.dirname(p))`
  pub parent_name : String → String

module _ {A B : Type 0} where
  infixl 5 ◌>>=◌
  abbrev pub ◌>>=◌ : Result PackError A → (A → Result PackError B) → Result PackError B
  ok a >>= f = f a
  err e >>= f = err e

-- An error of the file system goes through to the caller.
abbrev pub thrown : {A : Type 0} → Result String A → Result PackError A
thrown (ok a) = ok a
thrown (err e) = err (other e)
