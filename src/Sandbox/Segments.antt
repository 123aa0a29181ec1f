-- ===== src/Sandbox/Segments.antt =====
-- The parts of a path: how `split` meets `join`, and how `walk` meets parts that name something.
use Prim.Native.Char.{Char}
use Prim.Native.String.{◌++◌ as ◌<>◌}
use mathlib.Core.List.{append_assoc, append-nil}
use text.Mathlib.TextLemmas as Text
use minerva.Base.{
  String, ◌≡◌, refl, sym, ◌∙◌, inl, inr, Bool, false, List, [], ◌∷◌, ◌++◌, ◌==◌, Bool-cases,
}
use minerva.Base.Text.{join}
use minerva.Sandbox.Paths.{is_slash, push, split, take_part, walk}

abbrev pub NoSlash : String → Type 0
NoSlash String.[] = Unit
NoSlash (String.◌∷◌ c s) = (is_slash c ≡ false) × NoSlash s

-- A part that `walk` keeps, whatever comes before.
abbrev pub IsName : String → Type 0
IsName part = ((part == "") ≡ false) × ((part == ".") ≡ false) × ((part == "..") ≡ false)

abbrev pub All : (String → Type 0) → List String → Type 0
All P [] = Unit
All P (x ∷ xs) = P x × All P xs

pub All-append :
    (P : String → Type 0) (xs ys : List String) → All P xs → All P ys → All P (xs ++ ys)
All-append P [] ys h k = k
All-append P (x ∷ xs) ys (h, hs) k = (h, All-append P xs ys hs k)

split-cons : (s : String) → (part : String) × (parts : List String) × (split s ≡ part ∷ parts)
unfolding split
split-cons String.[] = ("", [], refl)
split-cons (String.◌∷◌ c s) = elim (Bool-cases (is_slash c)) [
  | inl e ↦ rw e ("", split s, refl)
  | inr e ↦ rw e (let (part, parts, h) = split-cons s in (String.◌∷◌ c part, parts, rw h refl))
]

pub split-append : (a b : String) → split (a <> ("/" <> b)) ≡ split a ++ split b
unfolding split
split-append String.[] b =
    rw (Text.nil-append ("/" <> b), Text.cons-append _ "" b, Text.nil-append b) refl
split-append (String.◌∷◌ c a) b =
    let (part, parts, h) = split-cons a in
    rw (Text.cons-append c a ("/" <> b), split-append a b, h)
      (elim (Bool-cases (is_slash c)) [ inl e ↦ rw e refl | inr e ↦ rw e refl ])

pub split_of_NoSlash : (s : String) → NoSlash s → split s ≡ s ∷ []
unfolding split
split_of_NoSlash String.[] h = refl
split_of_NoSlash (String.◌∷◌ c s) (h, hs) = rw (h, split_of_NoSlash s hs) refl

push-NoSlash :
    (c : Char) (parts : List String)
    → is_slash c ≡ false
    → All NoSlash parts
    → All NoSlash (push c parts)
push-NoSlash c [] e h = ((e, tt), tt)
push-NoSlash c (part ∷ parts) e (h, hs) = ((e, h), hs)

pub split-NoSlash : (s : String) → All NoSlash (split s)
unfolding split
split-NoSlash String.[] = (tt, tt)
split-NoSlash (String.◌∷◌ c s) = elim (Bool-cases (is_slash c)) [
  | inl e ↦ rw e (tt, split-NoSlash s)
  | inr e ↦ rw e (push-NoSlash c (split s) e (split-NoSlash s))
]

pub split-join :
    (part : String) (parts : List String)
    → All NoSlash (part ∷ parts)
    → split (join "/" (part ∷ parts)) ≡ part ∷ parts
unfolding join
split-join part [] (h, hs) = split_of_NoSlash part h
split-join part (next ∷ parts) (h, hs) =
    split-append part (join "/" (next ∷ parts))
    ∙ rw (split_of_NoSlash part h, split-join next parts hs) refl

pub walk-append :
    (above : Bool) (done xs ys : List String)
    → walk above done (xs ++ ys) ≡ walk above (walk above done xs) ys
unfolding walk
walk-append above done [] ys = refl
walk-append above done (x ∷ xs) ys = walk-append above (take_part above done x) xs ys

pub walk_of_names :
    (above : Bool) (done parts : List String)
    → All IsName parts
    → walk above done parts ≡ done ++ parts
unfolding walk
walk_of_names above done [] h = sym (append-nil done)
walk_of_names above done (part ∷ parts) ((a, b, c), hs) =
    rw (a, b, c)
      (walk_of_names above (done ++ part ∷ []) parts hs ∙ append_assoc done (part ∷ []) parts)
