-- ===== src/RunManager/Invariant.antt =====
-- The invariant of the run manager: its services tell the same story about every run.
use minerva.Base.{
  String, ◌≡◌, ◌≢◌, false, Option, none, some, ◌==◌, if◌then◌else◌, arith, eq_iff, inl, inr,
  Option-cases,
}
use minerva.Dict.{get}
use minerva.Run.{Run, queued, running}
use minerva.Queue.Invariant.{IsWellFormed}
use minerva.Lease.Invariant.{IsConsistent}
use minerva.Timeout.{TimeoutHandle}
use minerva.Timeout.Timers.{IsLinked}
use minerva.RunManager.{RunManager}

-- The run in the repository is queued for the user.
abbrev pub IsWaiting : Option Run → String → Type 0
IsWaiting none u = ⊥
IsWaiting (some run) u = (run.state ≡ queued) × (run.user_id ≡ u)

abbrev pub IsRunning : Option Run → Type 0
IsRunning none = ⊥
IsRunning (some run) = run.state ≡ running

pub record Inv (s : RunManager) : Type 0 where
  pub queue_ok : IsWellFormed s.queue
  pub leases_ok : IsConsistent s.lease_manager
  pub timers_ok : IsLinked s.timeout_manager
  -- a run is filed under its id, for a user with a name
  pub filed : (r : String) (run : Run) → get r s.repo ≡ some run → (run.id ≡ r) × (run.user_id ≢ "")
  -- what waits in the queue of a user is a queued run of the user
  pub enqueued : (r u : String) → get r s.queue.run_to_user ≡ some u → IsWaiting (get r s.repo) u
  -- a queued run waits in the queue of its user
  pub waits :
      (r : String) (run : Run)
      → get r s.repo ≡ some run
      → run.state ≡ queued
      → get r s.queue.run_to_user ≡ some run.user_id
  -- only a running run has a timeout
  pub scheduled :
      (r : String) (h : TimeoutHandle)
      → get r s.timeout_manager.timeouts ≡ some h
      → IsRunning (get r s.repo)

module _ (s s' : RunManager) (r : String) (run run' : Run) where
  -- One run takes a state other than `queued`; the queue no longer has it, and if it has a timeout it
  -- runs. All else that the invariant speaks of is as before.
  pub record Moves : Type 0 where
    pub was : get r s.repo ≡ some run
    pub same_id : run'.id ≡ run.id
    pub same_user : run'.user_id ≡ run.user_id
    pub not_queued : run'.state ≢ queued
    pub repo_after : (j : String) → get j s'.repo ≡ (if r == j then some run' else get j s.repo)
    pub queue_after :
        (j : String)
        → get j s'.queue.run_to_user ≡ (if r == j then none else get j s.queue.run_to_user)
    pub others_timeouts :
        (j : String)
        → (r == j) ≡ false
        → get j s'.timeout_manager.timeouts ≡ get j s.timeout_manager.timeouts
    pub own_timeout :
        (h : TimeoutHandle) → get r s'.timeout_manager.timeouts ≡ some h → run'.state ≡ running
    pub queue_well_formed : IsWellFormed s'.queue
    pub leases_consistent : IsConsistent s'.lease_manager
    pub timers_linked : IsLinked s'.timeout_manager

  pub Moves-Inv : Inv s → Moves → Inv s'
  Moves-Inv v m = record {
    queue_ok = m.queue_well_formed;
    leases_ok = m.leases_consistent;
    timers_ok = m.timers_linked;
    filed = λ j k e. ground (
      arith,
      e,
      m.repo_after j,
      v.filed j k,
      v.filed r run m.was,
      m.same_id,
      m.same_user,
      eq_iff r j,
    );
    enqueued = λ j u e. ground (arith, e, m.repo_after j, m.queue_after j, v.enqueued j u);
    waits = λ j k e q.
        ground
          (arith, e, q, m.repo_after j, m.queue_after j, v.waits j k, m.not_queued, eq_iff r j);
    scheduled = λ j h e. ground (
      arith,
      e,
      m.repo_after j,
      m.others_timeouts j,
      m.own_timeout h,
      v.scheduled j h,
      eq_iff r j,
    );
  }

-- A run that is not queued is in no queue.
pub absent_from_queue :
    (s : RunManager) (r : String) (run : Run)
    → Inv s
    → get r s.repo ≡ some run
    → run.state ≢ queued
    → get r s.queue.run_to_user ≡ none
absent_from_queue s r run v e n = elim (Option-cases (get r s.queue.run_to_user)) [
  | inl f ↦ f
  | inr (u, f) ↦ ground (arith, v.enqueued r u f, e, n)
]
