-- ===== src/Queue/Invariant.antt =====
-- services/queue.ts: the agreement of the two maps of the run queue.
use minerva.Base.{
  String, ◌≡◌, ◌≢◌, refl, subst, true, false, Option, none, some, List, [], ◌∷◌, ◌++◌, arith, ◌==◌,
  eq_iff, if◌then◌else◌, tail, includes, inl, inr, Bool-cases, includes-append, snoc-IsDistinct,
  IsDistinct,
}
use minerva.Dict.{Dict, get, get-set, get-delete}
use minerva.Queue.{RunQueue, empty, enqueue, put_back, shift, dequeue}
use minerva.Queue.Lanes.{lane, lane-enqueue, lane-dequeue, owner-dequeue}

pub record IsWellFormed (q : RunQueue) : Type 0 where
  -- a waiting run is indexed under its user
  pub owned : (u r : String) → includes r (lane q u) ≡ true → get r q.run_to_user ≡ some u
  -- an indexed run is waiting
  pub waiting : (u r : String) → get r q.run_to_user ≡ some u → includes r (lane q u) ≡ true
  -- a run waits once
  pub distinct : (u : String) → IsDistinct (lane q u)
  -- no empty queue is kept
  pub trimmed : (u : String) → get u q.queues ≢ some []

snoc-ne-nil : (r : String) (xs : List String) → xs ++ r ∷ [] ≢ []
snoc-ne-nil r [] h = cc
snoc-ne-nil r (x ∷ xs) h = cc

tail-IsDistinct : (xs : List String) → IsDistinct xs → IsDistinct (tail xs)
tail-IsDistinct [] d = d
tail-IsDistinct (x ∷ xs) d = d.1

pub put_back-trimmed :
    (u w : String) (rs : List String) (m : Dict (List String))
    → get w m ≢ some []
    → get w (put_back u rs m) ≢ some []
unfolding put_back
put_back-trimmed u w [] m h = ground (arith, h, get-delete u w m)
put_back-trimmed u w (r ∷ rs) m h = ground (arith, h, get-set u w (r ∷ rs) m)

dequeue-trimmed :
    (q : RunQueue) (u w : String) (o : Option (List String))
    → get w q.queues ≢ some []
    → get w (shift q u o).0.queues ≢ some []
unfolding shift
dequeue-trimmed q u w none h = h
dequeue-trimmed q u w (some []) h = h
dequeue-trimmed q u w (some (r ∷ rs)) h = put_back-trimmed u w rs q.queues h

module _ (q : RunQueue) (v : IsWellFormed q) where
  -- A run that is not indexed waits nowhere.
  pub unindexed : (u r : String) → get r q.run_to_user ≡ none → includes r (lane q u) ≡ false
  unindexed u r h = elim (Bool-cases (includes r (lane q u))) [
    | inl e ↦ cc (v.owned u r e)
    | inr e ↦ e
  ]

  -- A run that waits in one user's queue waits in no other.
  pub other_lane :
      (u w r : String)
      → get r q.run_to_user ≡ some u
      → (u == w) ≡ false
      → includes r (lane q w) ≡ false
  other_lane u w r h n = elim (Bool-cases (includes r (lane q w))) [
    | inl e ↦ ground (arith, v.owned w r e, eq_iff u w)
    | inr e ↦ e
  ]

  enqueue-owned :
      (u r w j : String)
      → get r q.run_to_user ≡ none
      → includes j (lane (enqueue q r u).0 w) ≡ true
      → get j (enqueue q r u).0.run_to_user ≡ some w
  enqueue-owned u r w j fresh h =
      let h' : includes j (if u == w then lane q u ++ r ∷ [] else lane q w) ≡ true =
        rw (← lane-enqueue q r u w) h in
      unfold enqueue in
      ground (
        arith,
        h',
        get-set r j u q.run_to_user,
        includes-append j (lane q u) (r ∷ []),
        v.owned u j,
        v.owned w j,
        eq_iff u w,
        eq_iff r j,
        unindexed w r fresh,
      )

  enqueue-waiting :
      (u r w j : String)
      → get r q.run_to_user ≡ none
      → get j (enqueue q r u).0.run_to_user ≡ some w
      → includes j (lane (enqueue q r u).0 w) ≡ true
  enqueue-waiting u r w j fresh h = rw (lane-enqueue q r u w) (
      unfold enqueue in
      ground (
        arith,
        h,
        get-set r j u q.run_to_user,
        includes-append j (lane q u) (r ∷ []),
        v.waiting w j,
        eq_iff u w,
        eq_iff r j,
      ))

  -- Adding a run that is not indexed keeps the invariant.
  pub enqueue-IsWellFormed :
      (r u : String) → get r q.run_to_user ≡ none → IsWellFormed (enqueue q r u).0
  enqueue-IsWellFormed r u fresh = record {
    owned = λ w j. enqueue-owned u r w j fresh;
    waiting = λ w j. enqueue-waiting u r w j fresh;
    distinct = λ w. rw (lane-enqueue q r u w) (
        ground
          (arith, v.distinct w, snoc-IsDistinct r (lane q u) (v.distinct u), unindexed u r fresh));
    trimmed = λ w.
        unfold enqueue in
        ground
          (arith, v.trimmed w, get-set u w (lane q u ++ r ∷ []) q.queues, snoc-ne-nil r (lane q u));
  }

  dequeue-owned :
      (u w j : String) (xs : List String)
      → lane q u ≡ xs
      → includes j (lane (dequeue q u).0 w) ≡ true
      → get j (dequeue q u).0.run_to_user ≡ some w
  dequeue-owned u w j [] e h =
      rw (owner-dequeue q u j, e)
        (let h' : includes j (if u == w then tail (lane q u) else lane q w) ≡ true =
            rw (← lane-dequeue q u w) h in
          ground (arith, h', v.owned w j, e))
  dequeue-owned u w j (x ∷ xs) e h =
      rw (owner-dequeue q u j, e)
        (let h' : includes j (if u == w then tail (lane q u) else lane q w) ≡ true =
            rw (← lane-dequeue q u w) h in
          let d : IsDistinct (x ∷ xs) = subst IsDistinct e (v.distinct u) in
          ground (arith, h', v.owned w j, v.owned u j, v.owned u x, e, eq_iff u w, eq_iff x j, d))

  dequeue-waiting :
      (u w j : String) (xs : List String)
      → lane q u ≡ xs
      → get j (dequeue q u).0.run_to_user ≡ some w
      → includes j (lane (dequeue q u).0 w) ≡ true
  dequeue-waiting u w j [] e h = rw (lane-dequeue q u w) (
      let h' = rw (owner-dequeue q u j, e) at h in ground (arith, h', v.waiting w j, eq_iff u w, e))
  dequeue-waiting u w j (x ∷ xs) e h = rw (lane-dequeue q u w) (
      let h' = rw (owner-dequeue q u j, e) at h in
      ground (arith, h', v.waiting w j, eq_iff u w, eq_iff x j, e))

  -- Taking the next run out of a queue keeps the invariant.
  pub dequeue-IsWellFormed : (u : String) → IsWellFormed (dequeue q u).0
  dequeue-IsWellFormed u = record {
    owned = λ w j. dequeue-owned u w j (lane q u) refl;
    waiting = λ w j. dequeue-waiting u w j (lane q u) refl;
    distinct = λ w.
        rw (lane-dequeue q u w)
          (ground (arith, v.distinct w, tail-IsDistinct (lane q u) (v.distinct u)));
    trimmed = λ w. unfold dequeue in dequeue-trimmed q u w (get u q.queues) (v.trimmed w);
  }

pub empty-IsWellFormed : IsWellFormed empty
unfolding get
empty-IsWellFormed = record {
  owned = λ u r h. cc;
  waiting = λ u r h. cc;
  distinct = λ u. tt;
  trimmed = λ u h. cc;
}
