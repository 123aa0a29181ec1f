-- ===== src/Packs/Assembler/Contents.antt =====
-- services/orchestrator/src/packs/assembler.ts: what `trim` and `join` keep, and where a skill
-- stands in the prompt.
use Prim.Native.String.{◌++◌ as ◌<>◌}
use text.Mathlib.TextLemmas as Text
use minerva.Base.{
  String, ◌≡◌, refl, sym, ap, ◌∙◌, Bool, true, arith, ◌==◌, ◌&&◌, inl, inr, eq_of_test, Bool-cases,
}
use minerva.Base.Text.{is_space, trim_start, trim_end, trim}

-- A text of white space.
unfoldable pub is_blank : String → Bool
unfolding is_space
is_blank String.[] = true
is_blank (String.◌∷◌ c s) = is_space c && is_blank s

-- A text stands somewhere in another.
abbrev pub Contains : String → String → Type 0
Contains part whole = (a : String) × (b : String) × (whole ≡ a <> part <> b)

pub Contains-trans : (s t u : String) → Contains s t → Contains t u → Contains s u
Contains-trans s t u (a, b, e) (c, d, f) = (c <> a, b <> d, rw (f, e) simp Text.append_assoc)

trim_start_lem : (s : String) → (a : String) × (is_blank a ≡ true) × (s ≡ a <> trim_start s)
unfolding trim_start is_blank
trim_start_lem String.[] = ("", refl, refl)
trim_start_lem (String.◌∷◌ c s) = elim (Bool-cases (is_space c)) [
  | inl e ↦
      let (a, blank, f) = trim_start_lem s in
      (String.◌∷◌ c a, rw e blank, rw (e, Text.cons-append) (ap (String.◌∷◌ c) f))
  | inr e ↦ ("", refl, rw (e, Text.nil-append) refl)
]

both : (p q : Bool) → (p && q) ≡ true → (p ≡ true) × (q ≡ true)
both p q h = ground arith

trim_end_lem : (s : String) → (b : String) × (is_blank b ≡ true) × (s ≡ trim_end s <> b)
unfolding trim_end is_blank
trim_end_lem String.[] = ("", refl, refl)
trim_end_lem (String.◌∷◌ c s) = elim (Bool-cases (is_space c && (trim_end s == ""))) [
  | inl e ↦
      let (b, blank, f) = trim_end_lem s in
      let (space, empty) = both (is_space c) (trim_end s == "") e in
      (
        String.◌∷◌ c b,
        rw space blank,
        rw (e, Text.nil-append)
            (ap (String.◌∷◌ c)
              (f ∙ (ap (λ t. t <> b) (eq_of_test _ "" empty) ∙ Text.nil-append b))),
      )
  | inr e ↦
      let (b, blank, f) = trim_end_lem s in
      (b, blank, rw (e, Text.cons-append) (ap (String.◌∷◌ c) f))
]

-- `trim` cuts white space off the two ends and nothing else.
pub trim_lem :
    (s : String)
    → (a : String) × (b : String) × (is_blank a ≡ true)
      × (is_blank b ≡ true)
      × (s ≡ a <> trim s <> b)
unfolding trim
trim_lem s =
    let (a, a_blank, e) = trim_start_lem s in
    let (b, b_blank, f) = trim_end_lem (trim_start s) in
    (a, b, a_blank, b_blank, rw (sym f, sym e) refl)
