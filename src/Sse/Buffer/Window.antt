-- ===== src/Sse/Buffer/Window.antt =====
-- sse/buffer.ts: a run's buffer as a window on the events that were pushed for it.
use minerva.Base.{
  ℕ, zero, suc, ◌-◌, ◌≤◌, String, ◌≡◌, refl, sym, ap, ◌∙◌, Bool, true, false, some, List, [], ◌∷◌,
  ◌++◌, or_else, if◌then◌else◌, length, tail, drop, ltb, arith, ◌==◌, eq_iff, subst, length-append,
  inl, inr, Bool-cases,
}
use mathlib.Core.List.{append_assoc, append-nil}
use minerva.Dict.{get, get-set}
use minerva.Sse.{Envelope}
use minerva.Sse.Buffer.{EventBuffer, append, push, get_all_for_run}

module _ {ℓ} {A : Type ℓ} where
  -- The last `n` entries.
  abbrev pub last_n : ℕ → List A → List A
  last_n n xs = drop (length xs - n) xs

  length-drop : (k : ℕ) (xs : List A) → length (drop k xs) ≡ length xs - k
  length-drop zero xs = omega arith
  length-drop (suc k) [] = omega arith
  length-drop (suc k) (x ∷ xs) = omega (arith, length-drop k xs)

  pub length-last_n-le : (n : ℕ) (xs : List A) → length (last_n n xs) ≤ n
  length-last_n-le n xs = omega (arith, length-drop (length xs - n) xs)

  tail-drop : (k : ℕ) (xs : List A) → tail (drop k xs) ≡ drop (suc k) xs
  tail-drop zero [] = refl
  tail-drop zero (x ∷ xs) = refl
  tail-drop (suc k) [] = refl
  tail-drop (suc k) (x ∷ xs) = tail-drop k xs

  drop-append : (k : ℕ) (xs ys : List A) → k ≤ length xs → drop k (xs ++ ys) ≡ drop k xs ++ ys
  drop-append zero xs ys h = refl
  drop-append (suc k) [] ys h = absurd (omega arith)
  drop-append (suc k) (x ∷ xs) ys h = drop-append k xs ys (omega arith)

  -- Pushing to the window of a history gives the window of the longer history.
  slide :
      (n : ℕ) (xs : List A) (x : A)
      → (if ltb n (length (last_n n xs ++ x ∷ []))
          then tail (last_n n xs ++ x ∷ [])
          else last_n n xs ++ x ∷ [])
        ≡ last_n n (xs ++ x ∷ [])
  slide n xs x = elim (Bool-cases (ltb (length xs) n)) [
    | inl short ↦
        let a : length xs - n ≡ 0 = ground arith in
        let b : length (xs ++ x ∷ []) - n ≡ 0 = ground (arith, length-append xs (x ∷ [])) in
        rw (a, b) (ground (arith, length-append xs (x ∷ [])))
    | inr long ↦
        let k = length xs - n in
        let a : length (xs ++ x ∷ []) - n ≡ suc k = ground (arith, length-append xs (x ∷ [])) in
        let c : drop k xs ++ x ∷ [] ≡ drop k (xs ++ x ∷ []) =
          sym (drop-append k xs (x ∷ []) (omega arith)) in
        let full : ltb n (length (drop k (xs ++ x ∷ []))) ≡ true =
          ground (arith, length-drop k (xs ++ x ∷ []), length-append xs (x ∷ [])) in
        rw (c, full, a) (tail-drop k (xs ++ x ∷ []))
  ]

module _ {J : Type 0} where
  -- The events of one run.
  abbrev pub of_run : String → List (Envelope J) → List (Envelope J)
  of_run r [] = []
  of_run r (event ∷ events) =
      let rest = of_run r events in if event.run_id == r then event ∷ rest else rest

  abbrev pub push_all : EventBuffer J → List (Envelope J) → EventBuffer J
  push_all b [] = b
  push_all b (event ∷ events) = push_all (push b event) events

  push_window :
      (b : EventBuffer J) (r : String) (history : List (Envelope J)) (event : Envelope J)
      → get_all_for_run b r ≡ last_n b.max_size history
      → get_all_for_run (push b event) r ≡ last_n b.max_size (history ++ of_run r (event ∷ []))
  unfolding push get_all_for_run
  push_window b r history event h = rw get-set (by_run (event.run_id == r) refl)
    where
      by_run :
          (t : Bool)
          → (event.run_id == r) ≡ t
          → or_else
              (if t
                then some (append b.max_size (or_else (get event.run_id b.buffers) []) event)
                else get r b.buffers)
              []
            ≡ last_n b.max_size (history ++ (if t then event ∷ [] else []))
      by_run true e =
          let same : event.run_id ≡ r = ground (arith, eq_iff event.run_id r, e) in
          let buffer : or_else (get event.run_id b.buffers) [] ≡ last_n b.max_size history =
            subst (λ x. or_else (get x b.buffers) [] ≡ last_n b.max_size history) (sym same) h in
          rw buffer (slide b.max_size history event)
      by_run false e = rw append-nil h

  -- If a run's buffer is the window of its history, then after any further pushes, for whatever runs,
  -- it is the window of the history followed by the run's new events in their order.
  pub push_all_window :
      (es : List (Envelope J)) (b : EventBuffer J) (r : String) (history : List (Envelope J))
      → get_all_for_run b r ≡ last_n b.max_size history
      → get_all_for_run (push_all b es) r ≡ last_n b.max_size (history ++ of_run r es)
  unfolding push
  push_all_window [] b r history h = rw append-nil h
  push_all_window (event ∷ es) b r history h =
      push_all_window es (push b event) r (history ++ of_run r (event ∷ []))
        (push_window b r history event h)
      ∙ ap (last_n b.max_size) (regroup (event.run_id == r))
    where
      regroup :
          (t : Bool)
          → (history ++ (if t then event ∷ [] else [])) ++ of_run r es
            ≡ history ++ (if t then event ∷ of_run r es else of_run r es)
      regroup true = append_assoc history (event ∷ []) (of_run r es)
      regroup false = rw append-nil
