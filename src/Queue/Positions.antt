-- ===== src/Queue/Positions.antt =====
-- Positions in the queue: what `enqueue` and `getPosition` report, and when a run is served.
use minerva.Base.{
  ℕ, zero, suc, String, ◌≡◌, ◌≢◌, refl, sym, false, none, some, List, [], ◌∷◌, ◌++◌, arith, eq_iff,
  truthy, length, head?, tail, index_of, includes, ◌∙◌,
}
use minerva.Dict.{get, get-set}
use minerva.Queue.{RunQueue, enqueue, dequeue, position_of, get_position}
use minerva.Queue.Lanes.{
  lane, lane-enqueue, lane-dequeue, owner-dequeue, enqueue_position, dequeue_result,
}
use minerva.Queue.Invariant.{IsWellFormed, dequeue-IsWellFormed, unindexed}

-- The position of a run is its index in its user's queue.
get_position_lem :
    (q : RunQueue) (r u : String)
    → get r q.run_to_user ≡ some u
    → u ≢ ""
    → get_position q r ≡ index_of r (lane q u)
unfolding get_position
get_position_lem q r u h n =
    let t : truthy (get r q.run_to_user) ≡ some u = ground (arith, eq_iff u "", h) in
    rw (t, position_of) (ground arith)

index_of-snoc :
    (r : String) (xs : List String)
    → includes r xs ≡ false
    → index_of r (xs ++ r ∷ []) ≡ some (length xs)
index_of-snoc r [] h = ground (arith, eq_iff r r)
index_of-snoc r (x ∷ xs) h = ground (arith, index_of-snoc r xs)

-- In a well-formed queue, for a user with a name and a run that is not indexed, the position that `enqueue` returns is the
-- number of runs ahead, and it is what `getPosition` then reports.
pub get_position-enqueue :
    (q : RunQueue) (r u : String)
    → IsWellFormed q
    → get r q.run_to_user ≡ none
    → u ≢ ""
    → ((enqueue q r u).1 ≡ length (lane q u))
      × (get_position (enqueue q r u).0 r ≡ some (enqueue q r u).1)
get_position-enqueue q r u v fresh n = (
  enqueue_position q r u,
  rw
      (
        get_position_lem (enqueue q r u).0 r u
            (unfold enqueue in rw get-set (ground (arith, eq_iff r r))) n,
        lane-enqueue q r u u,
        enqueue_position q r u,
      )
      (ground (arith, eq_iff u u, index_of-snoc r (lane q u), unindexed q v u r fresh)),
)

-- The runs that a user's queue gives up in `n` dequeues, and the queue that is left.
pub dequeue_times : ℕ → RunQueue → String → RunQueue
dequeue_times zero q u = q
dequeue_times (suc n) q u = dequeue_times n (dequeue q u).0 u

owner_of_next :
    (q : RunQueue) (r u : String) (i : ℕ) (xs : List String)
    → IsWellFormed q
    → lane q u ≡ xs
    → index_of r xs ≡ some (suc i)
    → get r q.run_to_user ≡ some u
    → (get r (dequeue q u).0.run_to_user ≡ some u) × (index_of r (tail xs) ≡ some i)
owner_of_next q r u i [] v e f h = cc
owner_of_next q r u i (x ∷ xs) v e f h = (rw (owner-dequeue q u r, e) (ground arith), ground arith)

-- In a well-formed queue, a run of a user with a name that stands at position `i` is what the user's
-- queue gives after exactly `i` other dequeues.
pub served_in_turn :
    (i : ℕ) (q : RunQueue) (r u : String)
    → IsWellFormed q
    → get r q.run_to_user ≡ some u
    → u ≢ ""
    → get_position q r ≡ some i
    → (dequeue (dequeue_times i q u) u).1 ≡ some r
unfolding dequeue_times
served_in_turn zero q r u v h n p =
    let f : index_of r (lane q u) ≡ some 0 = sym (get_position_lem q r u h n) ∙ p in
    rw (dequeue_result q u) (first (lane q u) f)
  where
    first : (xs : List String) → index_of r xs ≡ some 0 → head? xs ≡ some r
    first [] f = cc
    first (x ∷ xs) f = ground (arith, eq_iff x r)
served_in_turn (suc i) q r u v h n p =
    let f : index_of r (lane q u) ≡ some (suc i) = sym (get_position_lem q r u h n) ∙ p in
    let (owned, g) = owner_of_next q r u i (lane q u) v refl f h in
    served_in_turn i (dequeue q u).0 r u (dequeue-IsWellFormed q v u) owned n (
      rw (get_position_lem (dequeue q u).0 r u owned n, lane-dequeue q u u)
        (ground (arith, g, eq_iff u u)))
