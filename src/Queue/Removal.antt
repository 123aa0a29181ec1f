-- ===== src/Queue/Removal.antt =====
-- services/queue.ts: `remove`.
use minerva.Base.{
  ℕ, suc, String, ◌≡◌, ◌≢◌, refl, true, false, none, some, List, [], ◌∷◌, arith, ◌==◌, eq_iff,
  if◌then◌else◌, truthy, index_of, remove_at, erase, includes, inl, inr, Option-cases, Bool-cases,
  remove_at-index_of, includes-erase, erase-IsDistinct,
}
use minerva.Dict.{get, get-delete}
use minerva.Queue.{RunQueue, splice, remove_from, remove}
use minerva.Queue.Lanes.{lane, lane-put_back}
use minerva.Queue.Invariant.{IsWellFormed, put_back-trimmed, other_lane}

-- What `remove` does to a run of a user whose name is not empty: `removed` is the queue after.
pub record Removal (q : RunQueue) (r u : String) (removed : RunQueue) : Type 0 where
  pub lane_after : (w : String) → lane removed w ≡ (if u == w then erase r (lane q u) else lane q w)
  pub owner_after :
      (j : String) → get j removed.run_to_user ≡ (if r == j then none else get j q.run_to_user)
  pub trimmed_after : (w : String) → get w q.queues ≢ some [] → get w removed.queues ≢ some []

splice-Removal :
    (q : RunQueue) (r u : String) (queue : List String) (i : ℕ)
    → get u q.queues ≡ some queue
    → index_of r queue ≡ some i
    → Removal q r u (splice q r u queue (some i)).0
unfolding splice
splice-Removal q r u queue i e f = record {
  lane_after = λ w.
      rw (lane-put_back u w (remove_at i queue) q.queues)
        (ground (arith, remove_at-index_of r queue i f, e));
  owner_after = λ j. get-delete r j q.run_to_user;
  trimmed_after = λ w h. put_back-trimmed u w (remove_at i queue) q.queues h;
}

remove_lookup :
    (q : RunQueue) (r u : String) (queue : List String) (i : ℕ)
    → truthy (get r q.run_to_user) ≡ some u
    → get u q.queues ≡ some queue
    → index_of r queue ≡ some i
    → remove q r ≡ splice q r u queue (some i)
unfolding remove remove_from
remove_lookup q r u queue i t e f = rw (t, remove_from) (rw (e, f))

includes-some :
    (r : String) (xs : List String) → includes r xs ≡ true → (i : ℕ) × (index_of r xs ≡ some i)
includes-some r [] h = cc
includes-some r (x ∷ xs) h = elim (Bool-cases (x == r)) [
  | inl e ↦ (0, ground arith)
  | inr e ↦ let (i, f) = includes-some r xs (ground arith) in (suc i, ground arith)
]

lane_bound :
    (q : RunQueue) (r u : String)
    → includes r (lane q u) ≡ true
    → (queue : List String) × (get u q.queues ≡ some queue) × (includes r queue ≡ true)
lane_bound q r u h = elim (Option-cases (get u q.queues)) [
  | inl e ↦ ground arith
  | inr (queue, e) ↦ (queue, e, ground arith)
]

module _ (q : RunQueue) (v : IsWellFormed q) (r u : String) where
  remove_found :
      get r q.run_to_user ≡ some u → u ≢ "" → ((remove q r).1 ≡ true) × Removal q r u (remove q r).0
  remove_found h n =
      let (queue, e, m) = lane_bound q r u (v.waiting u r h) in
      let (i, f) = includes-some r queue m in
      let t : truthy (get r q.run_to_user) ≡ some u = ground (arith, eq_iff u "", h) in
      rw (remove_lookup q r u queue i t e f)
        (unfold splice in refl, splice-Removal q r u queue i e f)

  Removal-IsWellFormed :
      (removed : RunQueue)
      → get r q.run_to_user ≡ some u
      → Removal q r u removed
      → IsWellFormed removed
  Removal-IsWellFormed removed h a = record {
    owned = λ w j p. ground (
      arith,
      a.lane_after w,
      a.owner_after j,
      p,
      v.owned w j,
      v.owned u j,
      eq_iff u w,
      eq_iff r j,
      other_lane q v u w r h,
      includes-erase r j (lane q u) (v.distinct u),
    );
    waiting = λ w j p. ground (
      arith,
      a.lane_after w,
      a.owner_after j,
      p,
      v.waiting w j,
      eq_iff u w,
      includes-erase r j (lane q u) (v.distinct u),
    );
    distinct = λ w.
        ground (arith, a.lane_after w, v.distinct w, erase-IsDistinct r (lane q u) (v.distinct u));
    trimmed = λ w. a.trimmed_after w (v.trimmed w);
  }

  -- From a well-formed queue a run that waits for a user with a name is taken out: the user's queue
  -- loses it and keeps its order, every other queue is as before, the run is no longer indexed, and
  -- the queue stays well-formed.
  pub remove_waiting :
      get r q.run_to_user ≡ some u
      → u ≢ ""
      → ((remove q r).1 ≡ true) × Removal q r u (remove q r).0 × IsWellFormed (remove q r).0
  remove_waiting h n =
      let (found, a) = remove_found h n in (found, a, Removal-IsWellFormed (remove q r).0 h a)

-- A run that is not indexed, or whose user's name is empty, is not removed and nothing changes.
pub remove_untouched :
    (q : RunQueue) (r : String) → truthy (get r q.run_to_user) ≡ none → remove q r ≡ (q, false)
unfolding remove
remove_untouched q r h = rw (h, remove_from) refl

-- A well-formed queue stays well-formed under `remove` of any run.
pub remove-IsWellFormed : (q : RunQueue) (r : String) → IsWellFormed q → IsWellFormed (remove q r).0
remove-IsWellFormed q r v = elim (Option-cases (get r q.run_to_user)) [
  | inl e ↦ rw (remove_untouched q r (ground arith)) v
  | inr (u, e) ↦ elim (Bool-cases (u == "")) [
    | inl n ↦ rw (remove_untouched q r (ground arith)) v
    | inr n ↦ (remove_waiting q v r u e (λ p. ground (arith, eq_iff u ""))).2
  ]
]
