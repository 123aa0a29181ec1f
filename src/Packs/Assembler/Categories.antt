-- ===== src/Packs/Assembler/Categories.antt =====
-- services/orchestrator/src/packs/assembler.ts: what `groupSkillsByCategory` returns.
use mathlib.Core.List.{append_assoc}
use minerva.Base.{
  String, ◌≡◌, refl, sym, Bool, true, false, Option, none, some, List, [], ◌∷◌, ◌++◌, ◌==◌,
  eq_of_test, if◌then◌else◌, or_else,
}
use minerva.Dict.{Dict, get, get-set, get-empty}
use minerva.Packs.{Skill}
use minerva.Packs.Assembler.{add_skill, group_all, group_skills_by_category}

-- The skills of a category, in their order.
unfoldable pub of_category : String → List Skill → List Skill
of_category category [] = []
of_category category (skill ∷ skills) =
    let rest = of_category category skills in
    if skill.category == category then skill ∷ rest else rest

-- A list, or nothing where it is empty.
abbrev pub nonempty {ℓ} : {A : Type ℓ} → List A → Option (List A)
nonempty [] = none
nonempty (x ∷ xs) = some (x ∷ xs)

-- What an entry becomes when a list is written behind it.
extend : Option (List Skill) → List Skill → Option (List Skill)
extend entry [] = entry
extend entry (skill ∷ skills) = some (or_else entry [] ++ skill ∷ skills)

extend-snoc :
    (entry : Option (List Skill)) (skill : Skill) (skills : List Skill)
    → extend (some (or_else entry [] ++ skill ∷ [])) skills ≡ extend entry (skill ∷ skills)
unfolding extend
extend-snoc entry skill [] = refl
extend-snoc entry skill (next ∷ skills) = simp append_assoc

get-group_all :
    (category : String) (skills : List Skill) (groups : Dict (List Skill))
    → get category (group_all skills groups)
      ≡ extend (get category groups) (of_category category skills)
unfolding group_all add_skill of_category extend
get-group_all category [] groups = refl
get-group_all category (skill ∷ skills) groups =
    rw (get-group_all category skills (add_skill skill groups), get-set)
      (by_test (skill.category == category) refl)
  where
    by_test :
        (t : Bool)
        → (skill.category == category) ≡ t
        → extend
            (if t
              then some (or_else (get skill.category groups) [] ++ skill ∷ [])
              else get category groups)
            (of_category category skills)
          ≡ extend
              (get category groups)
              (if t then skill ∷ of_category category skills else of_category category skills)
    by_test true e =
        rw (sym (eq_of_test skill.category category e))
          (extend-snoc (get skill.category groups) skill (of_category skill.category skills))
    by_test false e = refl

extend-none : (skills : List Skill) → extend none skills ≡ nonempty skills
unfolding extend
extend-none [] = refl
extend-none (skill ∷ skills) = refl

-- `groupSkillsByCategory` has an entry for each category that occurs, and no other, and the entry
-- holds the skills of that category in the order of the list.
pub group_skills_by_category_lem :
    (category : String) (skills : List Skill)
    → get category (group_skills_by_category skills) ≡ nonempty (of_category category skills)
unfolding group_skills_by_category
group_skills_by_category_lem category skills =
    rw (get-group_all category skills [], get-empty) (extend-none (of_category category skills))
