-- ===== src/Base/Sorting.antt =====
-- `Array.prototype.sort` with a comparison function, which the language specifies as stable: an
-- element goes in front of the first one it does not compare greater than.
use Prim.Native.Nat.{Ordering}
use mathlib.Core.Path.{◌≡◌}
use mathlib.Core.Logic.{inl, inr}
use mathlib.Core.Bool.{true, false, Bool-set}
use mathlib.Core.List.{List, [], ◌∷◌, Mem, Perm, Pairwise, Pairwise-singleton, forall_mem-cons}
use mathlib.Core.List.Perm
use text.Mathlib.Text.{is_le}
use minerva.Base.Tests.{if◌then◌else◌, Bool-cases}

module _ {ℓ} {A : Type ℓ} (compare : A → A → Ordering) where
  insert : A → List A → List A
  insert x [] = x ∷ []
  insert x (y ∷ ys) = let rest = insert x ys in if is_le (compare x y) then x ∷ y ∷ ys else y ∷ rest

  unfoldable pub sort : List A → List A
  unfolding insert
  sort [] = []
  sort (x ∷ xs) = insert x (sort xs)

  -- `a` may stand in front of `b`.
  abbrev pub IsBefore : A → A → Type 0
  IsBefore a b = is_le (compare a b) ≡ true

  -- No element compares greater than a later one.
  abbrev pub IsOrdered : List A → Type ℓ
  IsOrdered = Pairwise IsBefore

  insert-perm : (x : A) (l : List A) → Perm (insert x l) (x ∷ l)
  unfolding insert
  insert-perm x [] = Perm.rfl
  insert-perm x (y ∷ ys) = elim (Bool-cases (is_le (compare x y))) [
    | inl e ↦ rw e Perm.rfl
    | inr e ↦ rw e (Perm.trans (Perm.cons y (insert-perm x ys)) (Perm.swap x y ys))
  ]

  -- Sorting rearranges.
  pub sort-perm : (l : List A) → Perm (sort l) l
  unfolding sort
  sort-perm [] = Perm.rfl
  sort-perm (x ∷ xs) = Perm.trans (insert-perm x (sort xs)) (Perm.cons x (sort-perm xs))

-- What the language asks of a comparison function: it is total and transitive.
pub record IsConsistent {ℓ} (A : Type ℓ) (compare : A → A → Ordering) : Type ℓ where
  pub total : (a b : A) → is_le (compare a b) ≡ false → IsBefore compare b a
  pub trans : (a b c : A) → IsBefore compare a b → IsBefore compare b c → IsBefore compare a c

module _ {ℓ} {A : Type ℓ} (compare : A → A → Ordering) (consistent : IsConsistent A compare) where
  IsBelow : A → List A → Type ℓ
  IsBelow a l = (x : A) → Mem x l → IsBefore compare a x

  IsBelow-cons : (a b : A) (l : List A) → IsBefore compare a b → IsBelow a l → IsBelow a (b ∷ l)
  unfolding IsBelow
  IsBelow-cons a b l p h = (forall_mem-cons (λ b. Bool-set _ _)).1 (p, h)

  insert-IsOrdered :
      (x : A) {l : List A} → IsOrdered compare l → IsOrdered compare (insert compare x l)
  unfolding insert IsBelow
  insert-IsOrdered x Pairwise.nil = Pairwise-singleton _ x
  insert-IsOrdered x (Pairwise.cons {a = y} {l = ys} below s) =
      elim (Bool-cases (is_le (compare x y))) [
        | inl e ↦ rw e (
            Pairwise.cons (IsBelow-cons x y ys e λ z m. consistent.trans x y z e (below z m))
              (Pairwise.cons below s))
        | inr e ↦ rw e (
            Pairwise.cons
              (λ z m.
                IsBelow-cons y x ys (consistent.total x y e) below z
                  ((Perm.mem_iff (insert-perm compare x ys)).0 m))
              (insert-IsOrdered x s))
      ]

  -- Sorting with a consistent comparison function orders.
  pub sort-IsOrdered : (l : List A) → IsOrdered compare (sort compare l)
  unfolding sort
  sort-IsOrdered [] = Pairwise.nil
  sort-IsOrdered (x ∷ xs) = insert-IsOrdered x (sort-IsOrdered xs)
