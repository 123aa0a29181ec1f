-- ===== src/Base/Text.antt =====
-- The operations on texts of the language: `join`, `trim`, `includes` and `length`, which counts units
-- of UTF-16.
use Prim.Native.Char.{Char, code}
use Prim.Native.String.{String, ◌++◌ as ◌<>◌}
use Prim.Native.Nat.{ℕ, ◌+◌}
use mathlib.Core.Bool.{Bool, true, false, ◌||◌, ◌&&◌}
use mathlib.Core.List.{List, [], ◌∷◌}
use mathlib.Core.Option.{none, some}
use text.Mathlib.Text.{◌==◌, find?}
use minerva.Base.Tests.{ltb, leb, nat_eq, if◌then◌else◌}

unfoldable pub join : String → List String → String
join separator [] = ""
join separator (line ∷ []) = line
join separator (line ∷ next ∷ lines) = line <> separator <> join separator (next ∷ lines)

-- The white space and the line ends of the language.
unfoldable pub is_space : Char → Bool
is_space c =
    let n = code c in
    (leb 9 n && leb n 13)
    || nat_eq n 32
    || nat_eq n 160
    || nat_eq n 5760
    || (leb 8192 n && leb n 8202)
    || nat_eq n 8232
    || nat_eq n 8233
    || nat_eq n 8239
    || nat_eq n 8287
    || nat_eq n 12288
    || nat_eq n 65279

unfoldable pub trim_start : String → String
unfolding is_space
trim_start String.[] = ""
trim_start (String.◌∷◌ c s) = let rest = trim_start s in if is_space c then rest else String.◌∷◌ c s

unfoldable pub trim_end : String → String
unfolding is_space
trim_end String.[] = ""
trim_end (String.◌∷◌ c s) =
    let rest = trim_end s in if is_space c && (rest == "") then "" else String.◌∷◌ c rest

unfoldable pub trim : String → String
unfolding trim_start trim_end
trim s = trim_end (trim_start s)

unfoldable pub units : String → ℕ
units String.[] = 0
units (String.◌∷◌ c s) = (if ltb 65535 (code c) then 2 else 1) + units s

-- `s.includes(part)`
abbrev pub contains : String → String → Bool
contains s part = elim (find? s part) [ none ↦ false | some i ↦ true ]
