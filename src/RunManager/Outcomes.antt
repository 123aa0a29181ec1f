-- ===== src/RunManager/Outcomes.antt =====
-- What the calls on the run manager give their callers.
use minerva.Base.{
  ℕ, String, ◌≡◌, ◌≢◌, ◌≤◌, refl, ◌∙◌, true, Option, none, some, [], ◌∷◌, ◌++◌, ◌==◌, if◌then◌else◌,
  arith, eq_iff, eq_refl, inl, inr, ◌⊎◌, Option-cases, or_else, truthy, head?, tail, length, false,
  ap, erase, includes, includes-erase,
}
use minerva.Dict.{get, get-set}
use minerva.Exec.{ok}
use minerva.Run.{
  Run, CreateRunInput, leased, running, cancelled, is_terminal_state, is_active_state,
}
use minerva.Lease.Exclusion.{live_lease, leases-acquire}
use minerva.Queue.Lanes.{lane, lane-dequeue, lane-enqueue, enqueue_position}
use minerva.Timeout.Timers.{get-clear}
use minerva.RunManager.{RunManager}
use minerva.RunManager.Operations.{
  create_run, new_run, acquire_next_run, cancel_run, transition_updates, lease_updates,
}
use minerva.RunManager.Invariant.{Inv}
use minerva.RunManager.Transition.{transition_valid}
use minerva.RunManager.Effects.{withdrawn, error_only, cancel_found}
use minerva.RunManager.Preservation.{queue_without-lem, lane-queue_without}
use minerva.RunManager.Acquire.{granted, acquire_idle, acquire_blocked, acquire_taken}
use minerva.RunManager.Admission.{positioned, create_lem, head_is_waiting}
use minerva.RunManager.Steps.{nonterminal_can_cancel}

-- `createRun` gives the new run with the number of runs ahead of it as its position and a duration
-- within the limit; its id goes to the end of its user's queue, and the queues of other users stay.
pub create_run_outcome :
    (s : RunManager) (input : CreateRunInput) (r u : String) (now : ℕ)
    → let run = new_run s.config input r now in
      let s' = (create_run input r now s).1 in
      ((create_run input r now s).0
        ≡ ok (record run { queue_position = some (length (lane s.queue run.user_id)) }))
      × (run.max_duration_ms ≤ s.config.max_timeout_ms)
      × (lane s'.queue u
          ≡ (if run.user_id == u then lane s.queue run.user_id ++ r ∷ [] else lane s.queue u))
create_run_outcome s input r u now =
    let run = new_run s.config input r now in
    (
      rw (create_lem s input r now)
          (unfold positioned new_run in rw (enqueue_position s.queue r run.user_id)),
      unfold new_run in omega arith,
      rw (create_lem s input r now) (unfold new_run in lane-enqueue s.queue r run.user_id u),
    )

-- In a manager that satisfies the invariant, if no lease of the user lasts, `acquireNextRun` gives the
-- run at the front of the user's queue: it is leased under the given token, is the user's, and is
-- stored and taken out of the queue. Its id must not be empty.
pub acquire_next_run_outcome :
    (s : RunManager) (u token r : String) (now : ℕ)
    → Inv s
    → head? (lane s.queue u) ≡ some r
    → r ≢ ""
    → live_lease s.lease_manager u now ≡ none
    → let s' = (acquire_next_run u token now s).1 in
      (run : Run) × ((acquire_next_run u token now s).0 ≡ ok (some run))
      × (get r s'.repo ≡ some run)
      × (run.state ≡ leased)
      × (run.user_id ≡ u)
      × (lane s'.queue u ≡ tail (lane s.queue u))
      × (get u s'.lease_manager.leases ≡ some (granted s r token now))
acquire_next_run_outcome s u token r now v h n free =
    let t : truthy (head? (lane s.queue u)) ≡ some r = ground (arith, h, eq_iff r "") in
    let (run, e, q, w) = (head_is_waiting s u r v h).1 in
    let run' = lease_updates (granted s r token now) now run in
    rw (acquire_taken s u token now r run t free e) (
      run',
      refl,
      rw get-set (rw eq_refl),
      unfold lease_updates in refl,
      unfold lease_updates in w,
      rw (lane-dequeue s.queue u u) (rw eq_refl),
      rw (leases-acquire s.lease_manager u r token s.config.lease_ttl_ms now u free) (rw eq_refl),
    )

-- While a lease of the user lasts, or if nothing waits for the user, `acquireNextRun` gives no run and
-- changes nothing.
pub acquire_next_run_waits :
    (s : RunManager) (u token : String) (now : ℕ)
    → (truthy (head? (lane s.queue u)) ≡ none) ⊎ (live_lease s.lease_manager u now ≢ none)
    → acquire_next_run u token now s ≡ (ok none, s)
acquire_next_run_waits s u token now h = elim (Option-cases (truthy (head? (lane s.queue u)))) [
  | inl e ↦ acquire_idle s u token now e
  | inr (r, e) ↦ elim (Option-cases (live_lease s.lease_manager u now)) [
    | inr (l, f) ↦ acquire_blocked s u token now r l e f
    | inl f ↦ elim h [ inl g ↦ cc | inr g ↦ absurd (g f) ]
  ]
]

-- In a manager that satisfies the invariant, if a run of the user is running, no lease of the user
-- lasts and another run waits at the front of the user's queue, then after `acquireNextRun` both runs
-- are active. The id of the waiting run must not be empty.
pub two_active_runs :
    (s : RunManager) (u token r r' : String) (now : ℕ) (run' : Run)
    → Inv s
    → head? (lane s.queue u) ≡ some r
    → r ≢ ""
    → live_lease s.lease_manager u now ≡ none
    → get r' s.repo ≡ some run'
    → run'.state ≡ running
    → run'.user_id ≡ u
    → let s' = (acquire_next_run u token now s).1 in
      (run : Run) × (get r s'.repo ≡ some run)
      × (is_active_state run.state ≡ true)
      × (run.user_id ≡ u)
      × (get r' s'.repo ≡ some run')
      × (is_active_state run'.state ≡ true)
unfolding is_active_state
two_active_runs s u token r r' now run' v h n free e l w =
    let t : truthy (head? (lane s.queue u)) ≡ some r = ground (arith, h, eq_iff r "") in
    let (run, f, q, x) = (head_is_waiting s u r v h).1 in
    rw (acquire_taken s u token now r run t free f) (
      lease_updates (granted s r token now) now run,
      rw get-set (rw eq_refl),
      unfold lease_updates in refl,
      unfold lease_updates in x,
      rw get-set (ground (arith, e, f, q, l, eq_iff r r')),
      rw l refl,
    )

-- In a manager that satisfies the invariant, `cancelRun` on a run that has not ended succeeds: the run
-- that it gives and stores is cancelled and ended at the time of the call and has no timeout. Every
-- queue is the one before without the run, so the run waits in none, and the run is not indexed.
pub cancel_run_outcome :
    (s : RunManager) (r : String) (run : Run) (reason : Option String) (now : ℕ)
    → Inv s
    → get r s.repo ≡ some run
    → is_terminal_state run.state ≡ false
    → let s' = (cancel_run r reason now s).1 in
      (run' : Run) × ((cancel_run r reason now s).0 ≡ ok run')
      × (get r s'.repo ≡ some run')
      × (run'.state ≡ cancelled)
      × (run'.completed_at ≡ some now)
      × (get r s'.queue.run_to_user ≡ none)
      × ((w : String)
          → (lane s'.queue w ≡ erase r (lane s.queue w)) × (includes r (lane s'.queue w) ≡ false))
      × (get r s'.timeout_manager.timeouts ≡ none)
unfolding transition_updates is_terminal_state
cancel_run_outcome s r run reason now v e t =
    let meta = error_only (or_else reason "cancelled") in
    let why = or_else reason "user_cancelled" in
    rw (cancel_found s r run reason now e t) (
      rw
        (transition_valid (withdrawn s r run why) r cancelled meta now run e
          (nonterminal_can_cancel s v run.state t))
        (
          transition_updates cancelled meta now run,
          refl,
          rw get-set (rw eq_refl),
          refl,
          refl,
          (queue_without-lem s r run v e).1 r ∙ rw eq_refl,
          λ w.
              let left = lane-queue_without s r run v e w in
              (
                left,
                ap (includes r) left
                    ∙ (includes-erase r r (lane s.queue w) (v.queue_ok.distinct w)
                        ∙ rw eq_refl refl),
              ),
          rw get-clear (rw eq_refl),
        ))
