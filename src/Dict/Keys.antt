-- ===== src/Dict/Keys.antt =====
-- The keys of a `Map`.
use minerva.Base.{
  String, ◌≡◌, refl, true, false, none, [], ◌∷◌, arith, ◌==◌, eq_iff, if◌then◌else◌, includes,
  IsDistinct,
}
use minerva.Dict.{Dict, get, set, delete, keys, has}

module _ {ℓ} {V : Type ℓ} where
  pub includes-keys : (k : String) (m : Dict V) → includes k (keys m) ≡ has k m
  unfolding has keys get
  includes-keys k [] = refl
  includes-keys k ((j, v) ∷ m) = ground (arith, includes-keys k m)

  pub get_of_keys-false : (k : String) (m : Dict V) → includes k (keys m) ≡ false → get k m ≡ none
  unfolding keys get
  get_of_keys-false k [] h = refl
  get_of_keys-false k ((j, v) ∷ m) h = ground (arith, get_of_keys-false k m)

  keys-set :
      (j k : String) (v : V) (m : Dict V)
      → includes j (keys (set k v m)) ≡ (if k == j then true else includes j (keys m))
  unfolding keys set
  keys-set j k v [] = ground arith
  keys-set j k v ((i, w) ∷ m) = ground (arith, keys-set j k v m, eq_iff i k, eq_iff i j, eq_iff k j)

  keys-delete :
      (j k : String) (m : Dict V)
      → includes j (keys (delete k m)) ≡ (if k == j then false else includes j (keys m))
  unfolding keys delete
  keys-delete j k [] = ground arith
  keys-delete j k ((i, w) ∷ m) =
      ground (arith, keys-delete j k m, eq_iff i k, eq_iff i j, eq_iff k j)

  pub set-IsDistinct :
      (k : String) (v : V) (m : Dict V) → IsDistinct (keys m) → IsDistinct (keys (set k v m))
  unfolding keys set
  set-IsDistinct k v [] d = (refl, tt)
  set-IsDistinct k v ((i, w) ∷ m) d =
      ground (arith, set-IsDistinct k v m d.1, keys-set i k v m, eq_iff i k, eq_iff k i)

  pub delete-IsDistinct :
      (k : String) (m : Dict V) → IsDistinct (keys m) → IsDistinct (keys (delete k m))
  unfolding keys delete
  delete-IsDistinct k [] d = tt
  delete-IsDistinct k ((i, w) ∷ m) d =
      ground (arith, delete-IsDistinct k m d.1, keys-delete i k m, eq_iff i k, eq_iff k i)
