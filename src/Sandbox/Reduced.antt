-- ===== src/Sandbox/Reduced.antt =====
-- What `walk` leaves of the parts of a path: first parts `..`, then names.
use minerva.Base.{
  String, ◌≡◌, refl, ◌⊎◌, inl, inr, true, false, List, [], ◌∷◌, ◌++◌, ◌==◌, ◌||◌, arith, Bool-cases,
}
use minerva.Sandbox.Paths.{drop_last, stays_up, take_part, walk}
use minerva.Sandbox.Segments.{NoSlash, IsName, All, All-append}

abbrev pub IsReduced : List String → Type 0
IsReduced [] = Unit
IsReduced (x ∷ xs) = (((x == "..") ≡ true) × IsReduced xs) ⊎ All IsName (x ∷ xs)

All-drop_last : (P : String → Type 0) (xs : List String) → All P xs → All P (drop_last xs)
All-drop_last P [] h = tt
All-drop_last P (x ∷ []) h = tt
All-drop_last P (x ∷ y ∷ xs) (h, hs) = (h, All-drop_last P (y ∷ xs) hs)

drop_last-IsReduced : (xs : List String) → IsReduced xs → IsReduced (drop_last xs)
drop_last-IsReduced [] h = tt
drop_last-IsReduced (x ∷ []) h = tt
drop_last-IsReduced (x ∷ y ∷ xs) (inl (e, h)) = inl (e, drop_last-IsReduced (y ∷ xs) h)
drop_last-IsReduced (x ∷ y ∷ xs) (inr h) = inr (All-drop_last IsName (x ∷ y ∷ xs) h)

name-IsReduced :
    (xs : List String) (part : String) → IsReduced xs → IsName part → IsReduced (xs ++ part ∷ [])
name-IsReduced [] part h k = inr (k, tt)
name-IsReduced (x ∷ xs) part (inl (e, h)) k = inl (e, name-IsReduced xs part h k)
name-IsReduced (x ∷ xs) part (inr h) k = inr (All-append IsName (x ∷ xs) (part ∷ []) h (k, tt))

-- Names do not end in `..`.
names_stay : (x : String) (xs : List String) → All IsName (x ∷ xs) → stays_up (x ∷ xs) ≡ false
names_stay x [] ((a, b, c), h) = c
names_stay x (y ∷ xs) (h, hs) = names_stay y xs hs

up-IsReduced : (xs : List String) → IsReduced xs → stays_up xs ≡ true → IsReduced (xs ++ ".." ∷ [])
up-IsReduced [] h s = inl (refl, tt)
up-IsReduced (x ∷ xs) (inr h) s = ground (arith, names_stay x xs h)
up-IsReduced (x ∷ []) (inl (e, h)) s = inl (e, inl (refl, tt))
up-IsReduced (x ∷ y ∷ xs) (inl (e, h)) s = inl (e, up-IsReduced (y ∷ xs) h s)

take_part-IsReduced :
    (xs : List String) (part : String)
    → IsReduced xs
    → All NoSlash xs
    → NoSlash part
    → IsReduced (take_part true xs part) × All NoSlash (take_part true xs part)
take_part-IsReduced xs part h n k = elim (Bool-cases (part == "" || part == ".")) [
  | inl e ↦ rw e (h, n)
  | inr e ↦ elim (Bool-cases (part == "..")) [
    | inr f ↦
        rw (e, f)
          (
            name-IsReduced xs part h (ground arith, ground arith, f),
            All-append NoSlash xs (part ∷ []) n (k, tt),
          )
    | inl f ↦
        rw (e, f)
          (elim (Bool-cases (stays_up xs)) [
            | inl s ↦
                rw s (
                  up-IsReduced xs h s,
                  All-append NoSlash xs (".." ∷ []) n ((refl, (refl, tt)), tt),
                )
            | inr s ↦ rw s (drop_last-IsReduced xs h, All-drop_last NoSlash xs n)
          ])
  ]
]

pub walk-IsReduced :
    (xs parts : List String)
    → IsReduced xs
    → All NoSlash xs
    → All NoSlash parts
    → IsReduced (walk true xs parts) × All NoSlash (walk true xs parts)
unfolding walk
walk-IsReduced xs [] h n k = (h, n)
walk-IsReduced xs (part ∷ parts) h n (k, ks) =
    let (h', n') = take_part-IsReduced xs part h n k in
    walk-IsReduced (take_part true xs part) parts h' n' ks
