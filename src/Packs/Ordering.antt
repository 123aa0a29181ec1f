-- ===== src/Packs/Ordering.antt =====
-- services/orchestrator/src/packs/assembler.ts: `orderSkills`. `localeCompare` depends on the locale
-- of the machine and is an argument of the functions that use it.
use Prim.Native.Nat.{Ordering, compare}
use Prim.Native.String.{then}
use mathlib.Core.List.{Perm}
use text.Mathlib.Text.{is_le}
use minerva.Base.{String, ◌≡◌, sym, true, false, List, arith}
use minerva.Base.Sorting.{sort, sort-perm, sort-IsOrdered, IsOrdered, IsConsistent}
use minerva.Packs.{Skill, SkillOrdering, AssemblyRules}

module _ (locale_compare : String → String → Ordering) where
  unfoldable pub compare_skills : SkillOrdering → Skill → Skill → Ordering
  compare_skills SkillOrdering.alphabetical a b = locale_compare a.name b.name
  compare_skills SkillOrdering.category a b =
      then (locale_compare a.category b.category) (locale_compare a.name b.name)
  compare_skills SkillOrdering.size a b = compare a.size b.size

  unfoldable pub order_skills : AssemblyRules → List Skill → List Skill
  unfolding compare_skills
  order_skills rules skills = sort (compare_skills rules.skill_ordering) skills

abbrev pub reverse : Ordering → Ordering
reverse Ordering.lt = Ordering.gt
reverse Ordering.eq = Ordering.eq
reverse Ordering.gt = Ordering.lt

module _ (locale_compare : String → String → Ordering) (rules : AssemblyRules) where
  pub order_skills-perm :
      (skills : List Skill) → Perm (order_skills locale_compare rules skills) skills
  unfolding order_skills
  order_skills-perm skills = sort-perm (compare_skills locale_compare rules.skill_ordering) skills

-- What the documentation of `localeCompare` promises: the sign turns round with the arguments, and
-- it puts the texts in an order.
pub record IsCollation (locale_compare : String → String → Ordering) : Type 0 where
  pub turns : (a b : String) → locale_compare b a ≡ reverse (locale_compare a b)
  pub trans :
      (a b c : String)
      → is_le (locale_compare a b) ≡ true
      → is_le (locale_compare b c) ≡ true
      → is_le (locale_compare a c) ≡ true

-- Two comparisons, one after the other, and the same turned round.
total_then :
    (c n : Ordering) → is_le (then c n) ≡ false → is_le (then (reverse c) (reverse n)) ≡ true
total_then c n h = ground arith

-- Of three comparisons, each between two of three things.
abbrev IsLe : Ordering → Type 0
IsLe o = is_le o ≡ true

trans_then :
    (c d e n m k : Ordering)
    → (IsLe c → IsLe d → IsLe e)
    → (IsLe d → IsLe (reverse e) → IsLe (reverse c))
    → (IsLe (reverse e) → IsLe c → IsLe (reverse d))
    → (IsLe n → IsLe m → IsLe k)
    → IsLe (then c n)
    → IsLe (then d m)
    → IsLe (then e k)
trans_then c d e n m k f g h names p q = ground arith

module _ (locale_compare : String → String → Ordering)
    (collation : IsCollation locale_compare) where
  total_of_turns :
      (a b : String) → is_le (locale_compare a b) ≡ false → is_le (locale_compare b a) ≡ true
  total_of_turns a b h = ground (arith, collation.turns a b)

  compare_skills-IsConsistent :
      (ordering : SkillOrdering) → IsConsistent Skill (compare_skills locale_compare ordering)
  unfolding compare_skills
  compare_skills-IsConsistent SkillOrdering.alphabetical = record {
    total = λ a b. total_of_turns a.name b.name;
    trans = λ a b c. collation.trans a.name b.name c.name;
  }
  compare_skills-IsConsistent SkillOrdering.category = record {
    total = λ a b h.
        rw (collation.turns a.category b.category, collation.turns a.name b.name)
          (total_then _ _ h);
    trans = λ a b c.
        trans_then _ _ _ _ _ _ (collation.trans a.category b.category c.category)
          (rw
            (
              sym (collation.turns a.category c.category),
              sym (collation.turns a.category b.category),
            )
            (collation.trans b.category c.category a.category))
          (rw
            (
              sym (collation.turns a.category c.category),
              sym (collation.turns b.category c.category),
            )
            (collation.trans c.category a.category b.category))
          (collation.trans a.name b.name c.name);
  }
  compare_skills-IsConsistent SkillOrdering.size = record {
    total = λ a b h. ground arith;
    trans = λ a b c p q. ground arith;
  }

  -- `orderSkills` rearranges the skills, and no skill stands behind one that compares greater.
  pub order_skills_lem :
      (rules : AssemblyRules) (skills : List Skill)
      → Perm (order_skills locale_compare rules skills) skills
        × IsOrdered
            (compare_skills locale_compare rules.skill_ordering)
            (order_skills locale_compare rules skills)
  unfolding order_skills
  order_skills_lem rules skills = (
    order_skills-perm locale_compare rules skills,
    sort-IsOrdered (compare_skills locale_compare rules.skill_ordering)
        (compare_skills-IsConsistent rules.skill_ordering) skills,
  )
