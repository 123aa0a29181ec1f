-- ===== src/Sse/Streams/Stale.antt =====
-- stream.ts: what happens to a run's connections when a cleanup function is called a second time.
use minerva.Base.{ℕ, String, ◌≡◌, refl, ap, ◌∙◌, none, List, [], ◌∷◌, ◌++◌, length, eq_refl}
use minerva.Dict.{Dict, get, set, delete, get-set, get-delete}
use minerva.Sse.Streams.{
  Condition, StreamController, load, store, ensure, register, delete_if_empty, clean_up, connected,
}
use minerva.Sse.Streams.Delivery.{connected-none, connected-some}

load-last : (ss : List (List String)) (s : List String) → load (ss ++ s ∷ []) (length ss) ≡ s
load-last [] s = refl
load-last (x ∷ xs) s = load-last xs s

store-last :
    (ss : List (List String)) (s t : List String)
    → store (length ss) t (ss ++ s ∷ []) ≡ ss ++ t ∷ []
store-last [] s t = refl
store-last (x ∷ xs) s t = ap (λ l. x ∷ l) (store-last xs s t)

-- A controller that holds the run's set, with the given streams, as its last set.
abbrev holding : Dict ℕ → List (List String) → List String → StreamController
holding streams sets run_streams = record { streams = streams; sets = sets ++ run_streams ∷ [] }

register_first :
    (c : StreamController) (r a : String)
    → get r c.streams ≡ none
    → register c r a ≡ (
      holding (set r (length c.sets) c.streams) c.sets (a ∷ []),
      record { run_id = r; run_streams = length c.sets; stream = a },
    )
unfolding register ensure
register_first c r a h = rw (ensure, h, load-last c.sets [], store-last c.sets [] (a ∷ [])) refl

-- The set of a stream that is not the last one of the store stays when another set is added.
load-empty :
    (ss : List (List String)) (s : List String) → load ((ss ++ [] ∷ []) ++ s ∷ []) (length ss) ≡ []
load-empty [] s = refl
load-empty (x ∷ xs) s = load-empty xs s

store-empty :
    (ss : List (List String)) (s : List String)
    → load (store (length ss) [] ((ss ++ [] ∷ []) ++ s ∷ [])) (length ss) ≡ []
store-empty [] s = refl
store-empty (x ∷ xs) s = store-empty xs s

delete_if_empty-nil :
    (c : StreamController) (r : String) (i : ℕ)
    → load c.sets i ≡ []
    → delete_if_empty c r i ≡ record c { streams = delete r c.streams }
unfolding delete_if_empty
delete_if_empty-nil c r i h = rw (delete_if_empty, h) refl

module _ (J : Type 0) where
  clean_up_last :
      (m : Dict ℕ) (sets : List (List String)) (r a : String) (condition : String → Condition)
      → (clean_up {J = J}
          (holding m sets (a ∷ []))
          (record { run_id = r; run_streams = length sets; stream = a })
          condition).0
        ≡ holding (delete r m) sets []
  unfolding clean_up
  clean_up_last m sets r a condition =
      rw (load-last sets (a ∷ []), eq_refl a, store-last sets (a ∷ []) [])
        (delete_if_empty-nil (holding m sets []) r (length sets) (load-last sets []))

  clean_up_stale :
      (m : Dict ℕ) (sets : List (List String)) (r a b : String) (condition : String → Condition)
      → connected
          (clean_up {J = J}
            (holding m (sets ++ [] ∷ []) (b ∷ []))
            (record { run_id = r; run_streams = length sets; stream = a })
            condition).0
          r
        ≡ []
  unfolding clean_up
  clean_up_stale m sets r a b condition =
      let old = load-empty sets (b ∷ []) in
      rw
        (
          old,
          delete_if_empty-nil
              (record {
                streams = m;
                sets = store (length sets) [] ((sets ++ [] ∷ []) ++ (b ∷ []) ∷ []);
              })
              r (length sets) (store-empty sets (b ∷ [])),
        )
        (connected-none _ r (rw (get-delete r r m, eq_refl r) refl))

  -- If a run has no set of streams, a stream `a` registers and its cleanup function is called, `b`
  -- registers, and the cleanup function of `a` is called again, then `b` was the run's only stream before the last call
  -- and the run has no stream after it.
  pub stale_cleanup :
      (c : StreamController) (r a b : String) (condition : String → Condition)
      → get r c.streams ≡ none
      → let (c1, cleanup) = register c r a in
        let c2 = (clean_up {J = J} c1 cleanup condition).0 in
        let c3 = (register c2 r b).0 in
        (connected c3 r ≡ b ∷ []) × (connected (clean_up {J = J} c3 cleanup condition).0 r ≡ [])
  stale_cleanup c r a b condition h =
      let m = set r (length c.sets) c.streams in
      let none_left : get r (delete r m) ≡ none = rw (get-delete r r m, eq_refl r) refl in
      let c2 = holding (delete r m) c.sets [] in
      rw
        (
          register_first c r a h,
          clean_up_last m c.sets r a condition,
          register_first c2 r b none_left,
        )
        (
          connected-some _ r (length c2.sets)
                (rw (get-set r r (length c2.sets) (delete r m), eq_refl r) refl)
              ∙ load-last c2.sets (b ∷ []),
          clean_up_stale (set r (length c2.sets) (delete r m)) c.sets r a b condition,
        )
