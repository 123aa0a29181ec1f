-- ===== src/Queue/Lanes.antt =====
-- The abstract view of the run queue: for each user the list of its waiting runs, in order, and
-- what each operation does to it.
use minerva.Base.{
  String, ◌≡◌, refl, Option, none, some, List, [], ◌∷◌, ◌++◌, arith, ◌==◌, eq_iff, if◌then◌else◌,
  or_else, length, head?, tail, inl, inr, Option-cases, length-append,
}
use minerva.Dict.{Dict, get, get-set, get-delete}
use minerva.Queue.{RunQueue, enqueue, put_back, shift, dequeue, peek}

abbrev pub lane : RunQueue → String → List String
lane q u = or_else (get u q.queues) []

pub lane-put_back :
    (u v : String) (rs : List String) (m : Dict (List String))
    → or_else (get v (put_back u rs m)) [] ≡ (if u == v then rs else or_else (get v m) [])
unfolding put_back
lane-put_back u v [] m = ground (arith, get-delete u v m)
lane-put_back u v (r ∷ rs) m = ground (arith, get-set u v (r ∷ rs) m)

pub lane-enqueue :
    (q : RunQueue) (r u v : String)
    → lane (enqueue q r u).0 v ≡ (if u == v then lane q u ++ r ∷ [] else lane q v)
unfolding enqueue
lane-enqueue q r u v = ground (arith, get-set u v (lane q u ++ r ∷ []) q.queues)

pub enqueue_position : (q : RunQueue) (r u : String) → (enqueue q r u).1 ≡ length (lane q u)
unfolding enqueue
enqueue_position q r u = omega (arith, length-append (lane q u) (r ∷ []))

pub dequeue_result : (q : RunQueue) (u : String) → (dequeue q u).1 ≡ head? (lane q u)
unfolding dequeue shift
dequeue_result q u = ground arith

pub peek_result : (q : RunQueue) (u : String) → peek q u ≡ head? (lane q u)
unfolding peek
peek_result q u = ground arith

lane-shift :
    (q : RunQueue) (u v : String) (o : Option (List String))
    → get u q.queues ≡ o
    → lane (shift q u o).0 v ≡ (if u == v then tail (lane q u) else lane q v)
unfolding shift
lane-shift q u v none h = ground (arith, eq_iff u v)
lane-shift q u v (some []) h = ground (arith, eq_iff u v)
lane-shift q u v (some (r ∷ rs)) h = rw (lane-put_back u v rs q.queues) (ground arith)

pub lane-dequeue :
    (q : RunQueue) (u v : String)
    → lane (dequeue q u).0 v ≡ (if u == v then tail (lane q u) else lane q v)
unfolding dequeue
lane-dequeue q u v = lane-shift q u v (get u q.queues) refl

pub owner-dequeue :
    (q : RunQueue) (u r : String)
    → get r (dequeue q u).0.run_to_user ≡ elim (head? (lane q u)) [
      | none ↦ get r q.run_to_user
      | some x ↦ if x == r then none else get r q.run_to_user
    ]
unfolding dequeue shift
owner-dequeue q u r = elim (Option-cases (get u q.queues)) [
  | inl e ↦ rw (e, shift) refl
  | inr (xs, e) ↦ rw (e, shift) (shifted xs)
]
  where
    shifted :
        (xs : List String)
        → get r (shift q u (some xs)).0.run_to_user ≡ elim (head? xs) [
          | none ↦ get r q.run_to_user
          | some x ↦ if x == r then none else get r q.run_to_user
        ]
    shifted [] = refl
    shifted (x ∷ xs) = get-delete x r q.run_to_user
