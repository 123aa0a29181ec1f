-- ===== src/Sandbox/Paths.antt =====
-- The operations of node:path that services/orchestrator/src/sandbox/security.ts calls, on POSIX
-- paths.
use Prim.Native.Char.{Char, code}
use Prim.Native.String.{◌++◌ as ◌<>◌}
use minerva.Base.{
  String, Bool, true, false, List, [], ◌∷◌, ◌++◌, ◌==◌, ◌||◌, not, if◌then◌else◌, nat_eq, map,
}
use minerva.Base.Text.{join}

abbrev pub is_slash : Char → Bool
is_slash c = nat_eq (code c) 47

abbrev pub push : Char → List String → List String
push c [] = String.◌∷◌ c "" ∷ []
push c (part ∷ parts) = String.◌∷◌ c part ∷ parts

-- The parts between the slashes: one more than there are slashes.
unfoldable pub split : String → List String
split String.[] = "" ∷ []
split (String.◌∷◌ c s) = let rest = split s in if is_slash c then "" ∷ rest else push c rest

abbrev pub drop_last : List String → List String
drop_last [] = []
drop_last (part ∷ []) = []
drop_last (part ∷ next ∷ parts) = part ∷ drop_last (next ∷ parts)

-- Whether there is no last part that `..` could take away.
abbrev pub stays_up : List String → Bool
stays_up [] = true
stays_up (part ∷ []) = part == ".."
stays_up (part ∷ next ∷ parts) = stays_up (next ∷ parts)

abbrev pub up : Bool → List String → List String
up above done =
    if stays_up done then (if above then done ++ ".." ∷ [] else done) else drop_last done

abbrev pub take_part : Bool → List String → String → List String
take_part above done part =
    if part == "" || part == "."
    then done
    else if part == ".."
    then up above done
    else done ++ part ∷ []

-- The parts that are left when `.` and `..` are worked off from the left; `above` says whether `..`
-- is kept where nothing is left to take away.
unfoldable pub walk : Bool → List String → List String → List String
walk above done [] = done
walk above done (part ∷ parts) = walk above (take_part above done part) parts

unfoldable pub is_absolute : String → Bool
is_absolute String.[] = false
is_absolute (String.◌∷◌ c s) = is_slash c

unfoldable pub ends_in_slash : String → Bool
ends_in_slash String.[] = false
ends_in_slash (String.◌∷◌ c String.[]) = is_slash c
ends_in_slash (String.◌∷◌ c (String.◌∷◌ d s)) = ends_in_slash (String.◌∷◌ d s)

abbrev pub normalize_parts : Bool → Bool → List String → String
normalize_parts absolute slash [] = if absolute then "/" else if slash then "./" else "."
normalize_parts absolute slash (part ∷ parts) =
    (if absolute then "/" else "") <> join "/" (part ∷ parts) <> (if slash then "/" else "")

unfoldable pub normalize : String → String
unfolding walk split is_absolute ends_in_slash
normalize s =
    if s == ""
    then "."
    else normalize_parts (is_absolute s) (ends_in_slash s) (walk (not (is_absolute s)) [] (split s))

-- `join` of two paths that are not empty.
unfoldable pub join_paths : String → String → String
unfolding normalize
join_paths a b = normalize (a <> "/" <> b)

-- The parts of `resolve`.
unfoldable pub resolve : (cwd : String) → String → List String
unfolding walk split is_absolute
resolve cwd s = walk false [] (if is_absolute s then split s else split cwd ++ split s)

abbrev pub from_to : List String → List String → List String
from_to [] to = to
from_to (a ∷ from) [] = map (λ part. "..") (a ∷ from)
from_to (a ∷ from) (b ∷ to) =
    let rest = from_to from to in if a == b then rest else map (λ part. "..") (a ∷ from) ++ (b ∷ to)

unfoldable pub relative : (cwd : String) → String → String → String
unfolding resolve
relative cwd from to = join "/" (from_to (resolve cwd from) (resolve cwd to))
