-- ===== src/Packs/Assembler/Results.antt =====
-- services/orchestrator/src/packs/assembler.ts: what `assemble` returns.
use Prim.Native.Nat.{Ordering}
use Prim.Native.String.{◌++◌ as ◌<>◌}
use mathlib.Core.List.Perm
use text.Mathlib.TextLemmas as Text
use minerva.Base.{ℕ, String, ◌≡◌, ◌≤◌, ◌<◌, ◌⊎◌, refl, true, List, arith, inl, inr, Bool-cases, ltb}
use minerva.Exec.{ok, err}
use minerva.Packs.{AssemblyRules, AgentPack}
use minerva.Packs.Assembler.{build_sections, assemble}
use minerva.Packs.Assembler.Contents.{Contains, is_blank}
use minerva.Base.Text.{units}

-- A text stands in another once white space is put back at the two ends.
unfoldable pub ContainsTrimmed : String → String → Type 0
ContainsTrimmed part whole =
    (a : String) × (b : String) × (is_blank a ≡ true)
    × (is_blank b ≡ true)
    × Contains part (a <> whole <> b)

module _ (locale_compare : String → String → Ordering) (print_number to_iso_string : ℕ → String)
    (rules : AssemblyRules) where
  -- `assemble` throws exactly where the prompt has more units than the limit, and else returns the
  -- prompt that it has built.
  pub assemble_lem :
      (pack : AgentPack)
      → let prompt = build_sections locale_compare print_number to_iso_string rules pack in
        let result = assemble locale_compare print_number to_iso_string rules pack in
        ((rules.max_prompt_length < units prompt.full_prompt)
          × ((message : String) × (result ≡ err message)))
        ⊎ ((units prompt.full_prompt ≤ rules.max_prompt_length) × (result ≡ ok prompt))
  unfolding assemble
  assemble_lem pack =
      let prompt = build_sections locale_compare print_number to_iso_string rules pack in
      elim (Bool-cases (ltb rules.max_prompt_length (units prompt.full_prompt))) [
        | inl e ↦ inl (
          ground arith,
          (
            "Assembled prompt exceeds maximum length of "
                <> print_number rules.max_prompt_length
                <> " characters",
            rw e refl,
          ),
        )
        | inr e ↦ inr (ground arith, rw e refl)
      ]
