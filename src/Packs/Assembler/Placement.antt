-- ===== src/Packs/Assembler/Placement.antt =====
-- services/orchestrator/src/packs/assembler.ts: where the skills of a pack stand in its prompt.
use Prim.Native.String.{◌++◌ as ◌<>◌}
use mathlib.Core.List.{Memᴰ, append_assoc, append-nil}
use text.Mathlib.TextLemmas as Text
use minerva.Base.{
  String, ◌≡◌, refl, sym, ap, ◌∙◌, subst, some, List, [], ◌∷◌, ◌++◌, arith, ◌==◌, eq_refl, inl, inr,
  Bool-cases,
}
use minerva.Dict.{Dict, get}
use minerva.Packs.{Skill}
use minerva.Packs.Assembler.{
  skill_lines, category_lines, group_skills_by_category, build_skills_section,
}
use minerva.Packs.Assembler.Categories.{of_category, nonempty, group_skills_by_category_lem}
use minerva.Packs.Assembler.Contents.{Contains, Contains-trans}
use minerva.Base.Text.{join}

-- Lines that stand in a row in other lines.
abbrev pub Occurs : List String → List String → Type 0
Occurs block lines =
    (before : List String) × (after : List String) × (lines ≡ before ++ (block ++ after))

Occurs-trans : (k l m : List String) → Occurs k l → Occurs l m → Occurs k m
Occurs-trans k l m (a, b, e) (c, d, f) = (c ++ a, b ++ d, rw (f, e) simp append_assoc)

pub Occurs-behind : (k l m : List String) → Occurs k l → Occurs k (m ++ l)
Occurs-behind k l m (a, b, e) = (m ++ a, b, rw e (sym (append_assoc m a (k ++ b))))

join-append :
    (sep line : String) (lines : List String) (next : String) (rest : List String)
    → join sep ((line ∷ lines) ++ next ∷ rest)
      ≡ join sep (line ∷ lines) <> sep <> join sep (next ∷ rest)
unfolding join
join-append sep line [] next rest = refl
join-append sep line (more ∷ lines) next rest =
    rw (join-append sep more lines next rest) simp Text.append_assoc

join-prefix :
    (sep line : String) (lines after : List String)
    → Contains (join sep (line ∷ lines)) (join sep (line ∷ lines ++ after))
join-prefix sep line lines [] = ("", "", rw (append-nil, Text.nil-append, Text.append-nil) refl)
join-prefix sep line lines (next ∷ after) = (
  "",
  sep <> join sep (next ∷ after),
  rw (join-append sep line lines next after, Text.nil-append) refl,
)

pub join-Contains :
    (sep line : String) (lines before after : List String)
    → Contains (join sep (line ∷ lines)) (join sep (before ++ ((line ∷ lines) ++ after)))
join-Contains sep line lines [] after = join-prefix sep line lines after
join-Contains sep line lines (first ∷ before) after =
    Contains-trans _ _ _ (join-prefix sep line lines after) (
      join sep (first ∷ before) <> sep,
      "",
      rw (join-append sep first before line (lines ++ after), Text.append-nil, Text.append_assoc)
          refl,
    )

-- The lines of one skill.
unfoldable pub skill_block : Skill → List String
unfolding skill_lines
skill_block skill = skill_lines (skill ∷ [])

skill_lines-Occurs :
    (skill : Skill) (skills : List Skill)
    → Memᴰ skill skills
    → Occurs (skill_block skill) (skill_lines skills)
unfolding skill_block skill_lines
skill_lines-Occurs skill [] m = elim m [ ]
skill_lines-Occurs skill (first ∷ skills) (Memᴰ.head e) =
    subst (λ s. Occurs (skill_block skill) (skill_lines (s ∷ skills))) e
      ([], skill_lines skills, refl)
skill_lines-Occurs skill (first ∷ skills) (Memᴰ.tail m) =
    let (before, after, e) = skill_lines-Occurs skill skills m in
    (skill_block first ++ before, after, rw e refl)

of_category-Mem :
    (skill : Skill) (skills : List Skill)
    → Memᴰ skill skills
    → Memᴰ skill (of_category skill.category skills)
unfolding of_category
of_category-Mem skill [] m = elim m [ ]
of_category-Mem skill (first ∷ skills) (Memᴰ.head e) =
    subst (λ s. Memᴰ skill (of_category skill.category (s ∷ skills))) e
      (rw (eq_refl skill.category) (Memᴰ.head refl))
of_category-Mem skill (first ∷ skills) (Memᴰ.tail m) =
    elim (Bool-cases (first.category == skill.category)) [
      | inl e ↦ rw e (Memᴰ.tail (of_category-Mem skill skills m))
      | inr e ↦ rw e (of_category-Mem skill skills m)
    ]

category_lines-Occurs :
    (groups : Dict (List Skill)) (category : String) (skills : List Skill)
    → get category groups ≡ some skills
    → Occurs (skill_lines skills) (category_lines groups)
unfolding get category_lines
category_lines-Occurs [] category skills h = absurd ground arith
category_lines-Occurs ((name, members) ∷ groups) category skills h =
    elim (Bool-cases (name == category)) [
      | inl e ↦ (
        ("### " <> name) ∷ "" ∷ [],
        category_lines groups,
        ap (λ m. ("### " <> name) ∷ "" ∷ (skill_lines m ++ category_lines groups)) (ground arith),
      )
      | inr e ↦
          Occurs-behind (skill_lines skills) (category_lines groups)
            (("### " <> name) ∷ "" ∷ skill_lines members)
            (category_lines-Occurs groups category skills (ground arith))
    ]

nonempty-Mem :
    (skill : Skill) (skills : List Skill) → Memᴰ skill skills → nonempty skills ≡ some skills
nonempty-Mem skill [] m = elim m [ ]
nonempty-Mem skill (first ∷ skills) m = refl

-- The lines of a skill of the list stand among the lines of its categories.
section-Occurs :
    (skill : Skill) (skills : List Skill)
    → Memᴰ skill skills
    → Occurs (skill_block skill) (category_lines (group_skills_by_category skills))
section-Occurs skill skills m =
    let own = of_category skill.category skills in
    let among = of_category-Mem skill skills m in
    Occurs-trans (skill_block skill) (skill_lines own)
      (category_lines (group_skills_by_category skills)) (skill_lines-Occurs skill own among)
      (category_lines-Occurs (group_skills_by_category skills) skill.category own
        (group_skills_by_category_lem skill.category skills ∙ nonempty-Mem skill own among))

block_of_Occurs :
    (skill : Skill) (lines : List String)
    → Occurs (skill_block skill) lines
    → Contains (join "\n" (skill_block skill)) (join "\n" ("## Skills" ∷ "" ∷ lines))
unfolding skill_block skill_lines
block_of_Occurs skill lines (before, after, e) =
    rw e (join-Contains "\n" _ _ ("## Skills" ∷ "" ∷ before) after)

-- The section of the skills contains the lines of each skill.
pub build_skills_section-Contains :
    (skill : Skill) (skills : List Skill)
    → Memᴰ skill skills
    → Contains (join "\n" (skill_block skill)) (build_skills_section skills)
unfolding build_skills_section
build_skills_section-Contains skill [] m = elim m [ ]
build_skills_section-Contains skill (first ∷ skills) m =
    block_of_Occurs skill _ (section-Occurs skill (first ∷ skills) m)
