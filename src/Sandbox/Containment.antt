-- ===== src/Sandbox/Containment.antt =====
-- services/orchestrator/src/sandbox/security.ts: a path that is accepted stays in the workspace.
use Prim.Native.String.{◌++◌ as ◌<>◌}
use mathlib.Core.List.{append-nil}
use text.Mathlib.Text.{starts_with}
use text.Mathlib.TextPositions.{starts_with-append}
use text.Mathlib.TextLemmas as Text
use minerva.Base.{
  String, ◌≡◌, refl, sym, ap, subst, ◌∙◌, inl, inr, Bool, true, false, List, [], ◌∷◌, ◌++◌, ◌==◌,
  arith, eq_iff, Bool-cases,
}
use minerva.Base.Text.{join}
use minerva.Sandbox.{has_null, validate_path}
use minerva.Sandbox.Paths.{
  split, walk, is_absolute, ends_in_slash, normalize_parts, normalize, relative, resolve,
}
use minerva.Sandbox.Segments.{
  NoSlash, IsName, All, split-append, split-join, split-NoSlash, walk-append, walk_of_names,
}
use minerva.Sandbox.Reduced.{IsReduced, walk-IsReduced}

-- The parts of `s` add the names `names` to whatever stands before them.
abbrev Adds : String → List String → Type 0
Adds s names = All IsName names × ((done : List String) → walk false done (split s) ≡ done ++ names)

-- A text that starts with the part `..` starts with the two dots.
dots :
    (parts : List String) (slash : Bool)
    → starts_with (normalize_parts false slash (".." ∷ parts)) ".." ≡ true
unfolding join
dots [] slash = rw (Text.nil-append) (starts_with-append ".." _)
dots (next ∷ parts) slash = rw (Text.nil-append, Text.append_assoc) (starts_with-append ".." _)

names_of_reduced :
    (part : String) (parts : List String) (slash : Bool)
    → IsReduced (part ∷ parts)
    → starts_with (normalize_parts false slash (part ∷ parts)) ".." ≡ false
    → All IsName (part ∷ parts)
names_of_reduced part parts slash (inr h) e = h
names_of_reduced part parts slash (inl (same, h)) e =
    let starts =
      subst (λ p. starts_with (normalize_parts false slash (p ∷ parts)) ".." ≡ true)
        (sym ((eq_iff part "..").0 same)) (dots parts slash) in
    ground (arith, starts)

split-slash : (s : String) → split (s <> "/") ≡ split s ++ "" ∷ []
unfolding split
split-slash s = ap (λ t. split (s <> t)) (sym (Text.append-nil "/")) ∙ split-append s ""

parts-Adds :
    (part : String) (parts : List String) (slash : Bool)
    → All NoSlash (part ∷ parts)
    → All IsName (part ∷ parts)
    → Adds (normalize_parts false slash (part ∷ parts)) (part ∷ parts)
unfolding walk
parts-Adds part parts false n h = (
  h,
  λ done.
      rw (Text.nil-append, Text.append-nil, split-join part parts n)
        (walk_of_names false done (part ∷ parts) h),
)
parts-Adds part parts true n h = (
  h,
  λ done.
      rw
        (
          Text.nil-append,
          split-slash,
          split-join part parts n,
          walk-append,
          walk_of_names false done (part ∷ parts) h,
        )
        refl,
)

abbrev Normal : String → Type 0
Normal s = (names : List String) × Adds s names

left-Normal :
    (left : List String) (slash : Bool)
    → IsReduced left
    → All NoSlash left
    → starts_with (normalize_parts false slash left) ".." ≡ false
    → Normal (normalize_parts false slash left)
unfolding walk split
left-Normal [] true h n e = ([], (tt, λ done. sym (append-nil done)))
left-Normal [] false h n e = ([], (tt, λ done. sym (append-nil done)))
left-Normal (part ∷ parts) slash h n e =
    (part ∷ parts, parts-Adds part parts slash n (names_of_reduced part parts slash h e))

normalize_relative :
    (s : String)
    → is_absolute s ≡ false
    → (s == "") ≡ false
    → normalize s ≡ normalize_parts false (ends_in_slash s) (walk true [] (split s))
unfolding normalize
normalize_relative s h e = rw (e, h) refl

normalize_blank : (s : String) → (s == "") ≡ true → normalize s ≡ normalize_parts false false []
unfolding normalize
normalize_blank s e = rw e refl

normalize-Normal :
    (s : String)
    → is_absolute s ≡ false
    → starts_with (normalize s) ".." ≡ false
    → Normal (normalize s)
normalize-Normal s h e = elim (Bool-cases (s == "")) [
  | inl blank ↦ rw (normalize_blank s blank) (left-Normal [] false tt tt refl)
  | inr named ↦
      let same = normalize_relative s h named in
      let (reduced, no_slash) = walk-IsReduced [] (split s) tt tt (split-NoSlash s) in
      rw same (
        left-Normal (walk true [] (split s)) (ends_in_slash s) reduced no_slash
          (subst (λ t. starts_with t ".." ≡ false) same e))
]

accepted :
    (cwd user_path root : String)
    → (validate_path cwd user_path root).is_valid ≡ true
    → (has_null user_path ≡ false)
      × (is_absolute user_path ≡ false)
      × (starts_with (normalize user_path) ".." ≡ false)
      × ((validate_path cwd user_path root).normalized_path ≡ normalize user_path)
unfolding validate_path
accepted cwd user_path root h = ground arith

below_root : (root rest : String) → is_absolute root ≡ true → is_absolute (root <> rest) ≡ true
unfolding is_absolute
below_root String.[] rest h = ground arith
below_root (String.◌∷◌ c s) rest h = rw (Text.cons-append c s rest) h

resolve_absolute : (cwd s : String) → is_absolute s ≡ true → resolve cwd s ≡ walk false [] (split s)
unfolding resolve
resolve_absolute cwd s h = rw h refl

-- Where the root is an absolute path and `validatePath` accepts a path, the path has no null byte,
-- and the root, a slash and the normalized path resolve to the parts of the resolved root followed
-- by parts none of which is empty, `.` or `..`.
pub validate_path_lem :
    (cwd user_path root : String)
    → is_absolute root ≡ true
    → (validate_path cwd user_path root).is_valid ≡ true
    → (has_null user_path ≡ false)
      × ((names : List String) × All IsName names
          × (resolve cwd (root <> "/" <> (validate_path cwd user_path root).normalized_path)
              ≡ resolve cwd root ++ names))
validate_path_lem cwd user_path root h valid =
    let (no_null, relative, stays, path) = accepted cwd user_path root valid in
    let (names, (named, adds)) = normalize-Normal user_path relative stays in
    (
      no_null,
      (
        names,
        named,
        rw
            (
              path,
              resolve_absolute cwd root h,
              resolve_absolute cwd _ (below_root root ("/" <> normalize user_path) h),
              split-append,
              walk-append,
            )
            (adds (walk false [] (split root))),
      ),
    )
