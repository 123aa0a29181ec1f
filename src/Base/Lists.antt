-- ===== src/Base/Lists.antt =====
-- Lists over the native numbers, and the array operations `includes`, `indexOf` and `splice`.
use Prim.Native.Nat.{ℕ, zero, suc, ◌+◌}
use Prim.Native.String.{String}
use mathlib.Core.Path.{◌≡◌, refl}
use mathlib.Core.Bool.{Bool, true, false, ◌||◌}
use mathlib.Core.Option.{Option, none, some}
use mathlib.Core.Option
use mathlib.Core.List.{List, [], ◌∷◌, ◌++◌}
use native.Mathlib.Omega.{arith}
use text.Mathlib.Text.{◌==◌}
use text.Mathlib.TextEquality.{eq_iff}
use minerva.Base.Tests.{if◌then◌else◌}

module _ {ℓ} {A : Type ℓ} where
  abbrev pub length : List A → ℕ
  length [] = 0
  length (x ∷ xs) = suc (length xs)

  abbrev pub head? : List A → Option A
  head? [] = none
  head? (x ∷ xs) = some x

  abbrev pub tail : List A → List A
  tail [] = []
  tail (x ∷ xs) = xs

  abbrev pub drop : ℕ → List A → List A
  drop zero xs = xs
  drop (suc n) [] = []
  drop (suc n) (x ∷ xs) = drop n xs

  pub length-append : (xs ys : List A) → length (xs ++ ys) ≡ length xs + length ys
  length-append [] ys = omega arith
  length-append (x ∷ xs) ys = omega (arith, length-append xs ys)

-- `xs.includes(a)`
abbrev pub includes : String → List String → Bool
includes a [] = false
includes a (x ∷ xs) = (x == a) || includes a xs

-- `xs.indexOf(a)`, with `none` for -1
abbrev pub index_of : String → List String → Option ℕ
index_of a [] = none
index_of a (x ∷ xs) = if x == a then some 0 else Option.map suc (index_of a xs)

-- `xs.splice(i, 1)`
abbrev pub remove_at {ℓ} : {A : Type ℓ} → ℕ → List A → List A
remove_at i [] = []
remove_at zero (x ∷ xs) = xs
remove_at (suc i) (x ∷ xs) = x ∷ remove_at i xs

-- The list without the first `a`.
abbrev pub erase : String → List String → List String
erase a [] = []
erase a (x ∷ xs) = if x == a then xs else x ∷ erase a xs

abbrev pub IsDistinct : List String → Type 0
IsDistinct [] = Unit
IsDistinct (x ∷ xs) = (includes x xs ≡ false) × IsDistinct xs

pub includes-append :
    (a : String) (xs ys : List String) → includes a (xs ++ ys) ≡ (includes a xs || includes a ys)
includes-append a [] ys = refl
includes-append a (x ∷ xs) ys = ground (arith, includes-append a xs ys)

pub index_of-none : (a : String) (xs : List String) → includes a xs ≡ false → index_of a xs ≡ none
index_of-none a [] h = refl
index_of-none a (x ∷ xs) h = ground (arith, index_of-none a xs)

pub includes-index_of :
    (a : String) (xs : List String) (i : ℕ) → index_of a xs ≡ some i → includes a xs ≡ true
includes-index_of a [] i h = cc
includes-index_of a (x ∷ xs) zero h = ground (arith, includes-index_of a xs 0)
includes-index_of a (x ∷ xs) (suc i) h = ground (arith, includes-index_of a xs i)

pub remove_at-index_of :
    (a : String) (xs : List String) (i : ℕ) → index_of a xs ≡ some i → remove_at i xs ≡ erase a xs
remove_at-index_of a [] i h = cc
remove_at-index_of a (x ∷ xs) zero h = ground arith
remove_at-index_of a (x ∷ xs) (suc i) h = ground (arith, remove_at-index_of a xs i)

-- Where the entries are distinct, erasing one takes out all of it and nothing else.
pub includes-erase :
    (a b : String) (xs : List String)
    → IsDistinct xs
    → includes b (erase a xs) ≡ (if a == b then false else includes b xs)
includes-erase a b [] d = ground arith
includes-erase a b (x ∷ xs) d =
    ground (arith, includes-erase a b xs d.1, eq_iff x a, eq_iff x b, eq_iff a b)

pub erase_absent : (a : String) (xs : List String) → includes a xs ≡ false → erase a xs ≡ xs
erase_absent a [] h = refl
erase_absent a (x ∷ xs) h = ground (arith, erase_absent a xs)

pub erase-IsDistinct : (a : String) (xs : List String) → IsDistinct xs → IsDistinct (erase a xs)
erase-IsDistinct a [] d = tt
erase-IsDistinct a (x ∷ xs) d = ground (arith, erase-IsDistinct a xs d.1, includes-erase a x xs d.1)

pub snoc-IsDistinct :
    (a : String) (xs : List String)
    → IsDistinct xs
    → includes a xs ≡ false
    → IsDistinct (xs ++ a ∷ [])
snoc-IsDistinct a [] d h = (refl, tt)
snoc-IsDistinct a (x ∷ xs) d h =
    ground (arith, snoc-IsDistinct a xs d.1, includes-append x xs (a ∷ []), eq_iff x a, eq_iff a x)
