-- ===== src/RunManager/Races.antt =====
-- `acquireNextRun` and `cancelRun` on the same run at the same time: what happens if the removal that
-- `cancelRun` awaits runs after `acquireNextRun` has got its lease and before it dequeues.
use minerva.Base.{
  ℕ, String, ◌≡◌, ◌≢◌, refl, ap, subst, ◌∙◌, true, false, Option, none, some, List, ◌∷◌, ◌==◌,
  arith, eq_iff, eq_refl, includes, IsDistinct, head?,
}
use minerva.Dict.{get, set, get-set}
use minerva.Exec.{ok, ◌>>=◌, ◌>>◌}
use minerva.Run.{leased, Run, queued}
use minerva.Lease.{acquire}
use minerva.Lease.Exclusion.{live_lease, acquire_granted}
use minerva.Queue.{RunQueue, remove, dequeue}
use minerva.Queue.Lanes.{lane, lane-dequeue, owner-dequeue}
use minerva.Queue.Invariant.{IsWellFormed}
use minerva.Queue.Removal.{remove_waiting}
use minerva.RunManager.{RunManager, Action, acquire_lease, remove_from_queue, repo_get, repo_update}
use minerva.RunManager
use minerva.RunManager.Operations.{take_leased, remove_if_queued, lease_updates}
use minerva.RunManager.Invariant.{Inv, IsWaiting}
use minerva.RunManager.Transition.{update_found}
use minerva.RunManager.Acquire.{granted}
use minerva.RunManager.Admission.{head_is_waiting}

-- `acquireNextRun` once `peek` has given the run, with the removal of `cancelRun` in between.
unfoldable pub acquire_during_cancel : String → String → String → ℕ → Action (Option Run)
acquire_during_cancel user_id run_id token now = do
  lease ← acquire_lease user_id run_id token now
  remove_if_queued run_id queued
  take_leased user_id run_id now lease

-- The queue that is left: the run behind the removed one is dequeued in its place.
skipped :
    (q : RunQueue) (u r r2 : String) (rest : List String)
    → IsWellFormed q
    → u ≢ ""
    → lane q u ≡ r ∷ r2 ∷ rest
    → let left = (dequeue (remove q r).0 u).0 in
      (lane left u ≡ rest) × (get r2 left.run_to_user ≡ none)
skipped q u r r2 rest v n e =
    let waits : includes r (lane q u) ≡ true = ground (arith, e, eq_refl r) in
    let (_, a, _) = remove_waiting q v r u (v.owned u r waits) n in
    let after : lane (remove q r).0 u ≡ r2 ∷ rest =
      a.lane_after u ∙ ground (arith, e, eq_refl r, eq_refl u) in
    (
      lane-dequeue (remove q r).0 u u ∙ ground (arith, after, eq_refl u),
      owner-dequeue (remove q r).0 u r2 ∙ ground (arith, after, eq_refl r2),
    )

module _ (s : RunManager) (u r token : String) (now : ℕ) where
  interleaved :
      (run : Run)
      → live_lease s.lease_manager u now ≡ none
      → get r s.repo ≡ some run
      → acquire_during_cancel u r token now s ≡ (
        ok (some (lease_updates (granted s r token now) now run)),
        record s {
          repo = set r (lease_updates (granted s r token now) now run) s.repo;
          queue = (dequeue (remove s.queue r).0 u).0;
          lease_manager = (acquire s.lease_manager u r s.config.lease_ttl_ms token now).0;
        },
      )
  unfolding acquire_during_cancel acquire_lease remove_if_queued remove_from_queue take_leased
      RunManager.dequeue repo_get
  interleaved run f g = rw (acquire_granted s.lease_manager u r token s.config.lease_ttl_ms now f) (
      rw
        (update_found
          (record s {
            queue = (dequeue (remove s.queue r).0 u).0;
            lease_manager = (acquire s.lease_manager u r s.config.lease_ttl_ms token now).0;
          })
          r run (lease_updates (granted s r token now) now) g)
        (rw get-set (rw eq_refl)))

  -- In a manager that satisfies the invariant, where two runs stand at the front of the queue of a user
  -- with a name and no lease of the user lasts: if the first run is removed from the queue between the
  -- lease and the dequeue of `acquireNextRun`, then the first run is leased, and the second one stays
  -- queued but is no longer in the user's queue or in its index.
  pub lost_run :
      (r2 : String) (rest : List String)
      → Inv s
      → lane s.queue u ≡ r ∷ r2 ∷ rest
      → u ≢ ""
      → live_lease s.lease_manager u now ≡ none
      → let s' = (acquire_during_cancel u r token now s).1 in
        (run1 : Run) × (get r s'.repo ≡ some run1)
        × (run1.state ≡ leased)
        × ((run2 : Run) × (get r2 s'.repo ≡ some run2)
            × (run2.state ≡ queued)
            × (lane s'.queue u ≡ rest)
            × (get r2 s'.queue.run_to_user ≡ none))
  lost_run r2 rest v e n f =
      let d : IsDistinct (r ∷ r2 ∷ rest) = subst IsDistinct e (v.queue_ok.distinct u) in
      let (run, g, _, _) = (head_is_waiting s u r v (ap head? e)).1 in
      let second : includes r2 (lane s.queue u) ≡ true = ground (arith, e, eq_refl r2) in
      let (run2, g2, q2) =
        waiting r2 (get r2 s.repo) refl (v.enqueued r2 u (v.queue_ok.owned u r2 second)) in
      let (left, gone) = skipped s.queue u r r2 rest v.queue_ok n e in
      let apart : (r == r2) ≡ false = ground (arith, d.0, eq_iff r r2, eq_iff r2 r) in
      rw (interleaved run f g) (
        lease_updates (granted s r token now) now run,
        rw get-set (rw eq_refl),
        unfold lease_updates in refl,
        (run2, rw get-set (rw apart g2), q2, left, gone),
      )
    where
      waiting :
          (j : String) (o : Option Run)
          → get j s.repo ≡ o
          → IsWaiting o u
          → (run2 : Run) × (get j s.repo ≡ some run2) × (run2.state ≡ queued)
      waiting j none h w = absurd w
      waiting j (some k) h w = (k, h, w.0)
