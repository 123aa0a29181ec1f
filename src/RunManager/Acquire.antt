-- ===== src/RunManager/Acquire.antt =====
-- `acquireNextRun`: what it takes from the queue, and when.
use minerva.Base.{ℕ, String, ◌≡◌, none, some, eq_refl, truthy, head?}
use minerva.Dict.{get, set, get-set}
use minerva.Exec.{ok}
use minerva.Run.{Run}
use minerva.Lease.{Lease, LeaseManager, acquire}
use minerva.Lease
use minerva.Lease.Exclusion.{live_lease, acquire_refused, acquire_granted}
use minerva.Queue.{RunQueue}
use minerva.Queue
use minerva.Queue.Lanes.{lane, peek_result}
use minerva.RunManager.{RunManager, acquire_lease, dequeue, repo_get}
use minerva.RunManager.Operations.{lease_updates, take_leased, acquire_next_run}
use minerva.RunManager.Transition.{update_found}

abbrev pub granted : RunManager → String → String → ℕ → Lease
granted s r token now = Lease.new_lease r token s.config.lease_ttl_ms now

-- The state after the run has got its lease.
abbrev pub leased_state : RunManager → String → String → Run → String → ℕ → RunManager
leased_state s u r run token now = record s {
  repo = set r (lease_updates (granted s r token now) now run) s.repo;
  queue = (Queue.dequeue s.queue u).0;
  lease_manager = (acquire s.lease_manager u r s.config.lease_ttl_ms token now).0;
}

module _ (s : RunManager) (u token : String) (now : ℕ) where
  -- With nothing in the queue, or while a lease of the user lasts, nothing is taken and nothing changes.
  pub acquire_idle :
      truthy (head? (lane s.queue u)) ≡ none → acquire_next_run u token now s ≡ (ok none, s)
  unfolding acquire_next_run
  acquire_idle e = rw (peek_result s.queue u) (rw e)

  pub acquire_blocked :
      (r : String) (l : Lease)
      → truthy (head? (lane s.queue u)) ≡ some r
      → live_lease s.lease_manager u now ≡ some l
      → acquire_next_run u token now s ≡ (ok none, s)
  unfolding acquire_next_run acquire_lease take_leased
  acquire_blocked r l e f =
      rw (peek_result s.queue u)
        (rw e (rw (acquire_refused s.lease_manager u r token s.config.lease_ttl_ms now l f)))

  -- Otherwise the run at the head gets the lease.
  pub acquire_taken :
      (r : String) (run : Run)
      → truthy (head? (lane s.queue u)) ≡ some r
      → live_lease s.lease_manager u now ≡ none
      → get r s.repo ≡ some run
      → acquire_next_run u token now s ≡ (
        ok (some (lease_updates (granted s r token now) now run)),
        leased_state s u r run token now,
      )
  unfolding acquire_next_run acquire_lease take_leased dequeue repo_get
  acquire_taken r run e f g = rw (peek_result s.queue u) (
      rw e (
        rw (acquire_granted s.lease_manager u r token s.config.lease_ttl_ms now f) (
          rw
            (update_found
              (record s {
                lease_manager = (acquire s.lease_manager u r s.config.lease_ttl_ms token now).0;
                queue = (Queue.dequeue s.queue u).0;
              })
              r run (lease_updates (granted s r token now) now) g)
            (rw get-set (rw eq_refl)))))
