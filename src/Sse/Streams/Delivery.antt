-- ===== src/Sse/Streams/Delivery.antt =====
-- stream.ts: who gets an event, and which connections are kept.
use minerva.Base.{
  ℕ, zero, suc, String, ◌≡◌, refl, sym, ap, subst, ◌∙◌, false, not, ◌&&◌, none, some, List, [], ◌∷◌,
  ◌++◌, if◌then◌else◌, includes, ◌==◌, eq_iff, eq_refl, arith, IsDistinct, Option-cases, Bool-cases,
  inl, inr,
}
use minerva.Dict.{get, delete, get-delete}
use minerva.Sse.{Envelope}
use minerva.Sse.Streams.{
  Condition, Effect, write, close, StreamController, load, store, without, delete_if_empty, is_open,
  has_failed, dead_streams, delete_all, writes, closes, broadcast, connected,
}

includes-without :
    (x s : String) (xs : List String) → includes s (without x xs) ≡ (includes s xs && not (x == s))
includes-without x s [] = refl
includes-without x s (y ∷ ys) =
    ground (arith, includes-without x s ys, eq_iff y x, eq_iff y s, eq_iff x s)

includes-delete_all :
    (ds : List String) (s : String) (xs : List String)
    → includes s (delete_all ds xs) ≡ (includes s xs && not (includes s ds))
includes-delete_all [] s xs = ground arith
includes-delete_all (d ∷ ds) s xs =
    ground (arith, includes-delete_all ds s (without d xs), includes-without d s xs)

includes-dead_streams :
    (condition : String → Condition) (s : String) (ss : List String)
    → includes s (dead_streams condition ss) ≡ (includes s ss && has_failed (condition s))
includes-dead_streams condition s [] = refl
includes-dead_streams condition s (x ∷ xs) = elim (Bool-cases (x == s)) [
  | inl e ↦
      let same : has_failed (condition x) ≡ has_failed (condition s) =
        ap (λ y. has_failed (condition y)) ((eq_iff x s).0 e) in
      ground (arith, includes-dead_streams condition s xs)
  | inr e ↦ ground (arith, includes-dead_streams condition s xs)
]

delete_all-nil : (ds : List String) → delete_all ds [] ≡ []
delete_all-nil [] = refl
delete_all-nil (d ∷ ds) = delete_all-nil ds

load-store :
    (ds : List String) (i : ℕ) (sets : List (List String))
    → load (store i (delete_all ds (load sets i)) sets) i ≡ delete_all ds (load sets i)
load-store ds i [] = sym (delete_all-nil ds)
load-store ds zero (s ∷ ss) = refl
load-store ds (suc i) (s ∷ ss) = load-store ds i ss

pub connected-none :
    (c : StreamController) (r : String) → get r c.streams ≡ none → connected c r ≡ []
unfolding connected
connected-none c r h = rw (connected, h) refl

pub connected-some :
    (c : StreamController) (r : String) (i : ℕ)
    → get r c.streams ≡ some i
    → connected c r ≡ load c.sets i
unfolding connected
connected-some c r i h = rw (connected, h) refl

connected-delete_if_empty :
    (c : StreamController) (r : String) (i : ℕ)
    → get r c.streams ≡ some i
    → connected (delete_if_empty c r i) r ≡ load c.sets i
unfolding delete_if_empty
connected-delete_if_empty c r i h = by_set (load c.sets i) refl
  where
    by_set :
        (s : List String)
        → load c.sets i ≡ s
        → connected (elim s [ [] ↦ record c { streams = delete r c.streams } | x ∷ xs ↦ c ]) r ≡ s
    by_set [] e =
        connected-none (record c { streams = delete r c.streams }) r
          (ground (arith, get-delete r r c.streams, eq_refl r))
    by_set (x ∷ xs) e = connected-some c r i h ∙ e

module _ {J : Type 0} where
  -- The events that are written to a stream, in their order.
  abbrev pub written_to : String → List (Effect J) → List (Envelope J)
  written_to s [] = []
  written_to s (write x event ∷ es) =
      let rest = written_to s es in if x == s then event ∷ rest else rest
  written_to s (close x ∷ es) = written_to s es

  written_to-closes :
      (s : String) (es : List (Effect J)) (ds : List String)
      → written_to s (es ++ closes ds) ≡ written_to s es
  written_to-closes s [] [] = refl
  written_to-closes s [] (d ∷ ds) = written_to-closes s [] ds
  written_to-closes s (write x event ∷ es) ds = ground (arith, written_to-closes s es ds)
  written_to-closes s (close x ∷ es) ds = written_to-closes s es ds

  written_to-writes :
      (condition : String → Condition) (event : Envelope J) (s : String) (ss : List String)
      → IsDistinct ss
      → written_to s (writes condition event ss)
        ≡ (if includes s ss && is_open (condition s) then event ∷ [] else [])
  written_to-writes condition event s [] d = refl
  written_to-writes condition event s (x ∷ xs) d = elim (Bool-cases (x == s)) [
    | inl e ↦
        let same : is_open (condition x) ≡ is_open (condition s) =
          ap (λ y. is_open (condition y)) ((eq_iff x s).0 e) in
        let apart : includes s xs ≡ false =
          subst (λ y. includes y xs ≡ false) ((eq_iff x s).0 e) d.0 in
        ground (arith, written_to-writes condition event s xs d.1)
    | inr e ↦ ground (arith, written_to-writes condition event s xs d.1)
  ]

  -- A broadcast for a run writes this event once, and nothing else, to each of the run's streams
  -- that is open, and nothing to any other stream; afterwards the streams of the run are those that took the write.
  -- The streams of the run are distinct, as in a set.
  pub broadcast_lem :
      (c : StreamController) (r : String) (event : Envelope J) (condition : String → Condition)
      (s : String)
      → IsDistinct (connected c r)
      → (written_to s (broadcast c r event condition).1
          ≡ (if includes s (connected c r) && is_open (condition s) then event ∷ [] else []))
        × (includes s (connected (broadcast c r event condition).0 r)
            ≡ (includes s (connected c r) && not (has_failed (condition s))))
  unfolding broadcast
  broadcast_lem c r event condition s d = elim (Option-cases (get r c.streams)) [
    | inl e ↦ rw (broadcast, e, connected-none c r e) (refl, refl)
    | inr (i, e) ↦
        let open_streams = load c.sets i in
        let dead = dead_streams condition open_streams in
        let whole : connected c r ≡ open_streams = connected-some c r i e in
        let after =
          connected-delete_if_empty
            (record c { sets = store i (delete_all dead open_streams) c.sets }) r i e in
        rw (broadcast, e, whole)
          (
            written_to-closes s (writes condition event open_streams) dead
                ∙ written_to-writes condition event s open_streams (subst IsDistinct whole d),
            ap (includes s) (after ∙ load-store dead i c.sets)
                ∙ ground (
                  arith,
                  includes-delete_all dead s open_streams,
                  includes-dead_streams condition s open_streams,
                ),
          )
  ]
