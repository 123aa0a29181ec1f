-- ===== src/RunManager/Preservation.antt =====
-- services/run-manager.ts: the invariant where a run goes on or ends.
use minerva.Base.{
  ℕ, String, ◌≡◌, ◌≢◌, refl, true, Option, none, some, ◌==◌, if◌then◌else◌, arith, eq_iff, inl, inr,
  Bool-cases, truthy, ◌⊎◌, ap, sym, subst, ◌∙◌, includes, erase, erase_absent, false,
}
use minerva.Dict.{get, get-set}
use minerva.Run.{Run, RunState, queued, running, cancelled, timed_out, is_terminal_state}
use minerva.Lease.{LeaseManager}
use minerva.Lease.Invariant.{IsConsistent, release-IsConsistent}
use minerva.Timeout.{TimeoutManager}
use minerva.Timeout.Timers.{IsLinked, clear-IsLinked, get-clear}
use minerva.Queue.Invariant.{IsWellFormed}
use minerva.Queue.Lanes.{lane}
use minerva.Queue.Removal.{remove_waiting}
use minerva.RunManager.{RunManager}
use minerva.RunManager.Operations.{Metadata, transition_updates}
use minerva.RunManager.Invariant.{Inv, IsWaiting, Moves, Moves-Inv, absent_from_queue}
use minerva.RunManager.Transition.{cleared, moved}
use minerva.RunManager.Effects.{release_of, withdrawn, queue_without, let_go, expired}

release_of-IsConsistent :
    (m : LeaseManager) (token : Option String) → IsConsistent m → IsConsistent (release_of m token)
release_of-IsConsistent m none v = v
release_of-IsConsistent m (some t) v = release-IsConsistent m v t

cleared-IsLinked :
    (m : TimeoutManager) (r : String) (new : RunState) → IsLinked m → IsLinked (cleared m r new)
cleared-IsLinked m r new v = elim (Bool-cases (is_terminal_state new)) [
  | inl e ↦ rw e (clear-IsLinked m v r)
  | inr e ↦ rw e v
]

-- After a valid transition the run is running, or it is terminal and its timeout is cleared, or it is
-- leased and had none.
get-cleared :
    (m : TimeoutManager) (r j : String) (new : RunState)
    → get j (cleared m r new).timeouts ≡ (
        if is_terminal_state new
        then (if r == j then none else get j m.timeouts)
        else get j m.timeouts)
get-cleared m r j new = elim (Bool-cases (is_terminal_state new)) [
  | inl e ↦ rw e (get-clear m r j)
  | inr e ↦ rw e
]

-- A run that is to be terminal, from a state of the manager that may already have taken it out of
-- the queue: `s` is the state before, with the invariant, and `mid` the state at the transition.
ended-Moves :
    (s mid : RunManager) (r : String) (run : Run) (new : RunState) (meta : Metadata) (now : ℕ)
    → Inv s
    → get r s.repo ≡ some run
    → is_terminal_state new ≡ true
    → mid.repo ≡ s.repo
    → mid.timeout_manager ≡ s.timeout_manager
    → IsWellFormed mid.queue
    → IsConsistent mid.lease_manager
    → ((j : String)
        → get j mid.queue.run_to_user ≡ (if r == j then none else get j s.queue.run_to_user))
    → Moves s (moved mid r run new meta now) r run (transition_updates new meta now run)
unfolding transition_updates is_terminal_state
ended-Moves s mid r run new meta now v e t same_repo same_timers wf consistent queue = record {
  was = e;
  same_id = refl;
  same_user = refl;
  not_queued = λ q. ground arith;
  repo_after = λ j. ground (arith, get-set r j (transition_updates new meta now run) mid.repo);
  queue_after = queue;
  others_timeouts = λ j n. ground (arith, get-cleared mid.timeout_manager r j new);
  own_timeout = λ h p. ground (arith, p, get-cleared mid.timeout_manager r r new, eq_iff r r);
  queue_well_formed = wf;
  leases_consistent = consistent;
  timers_linked = cleared-IsLinked mid.timeout_manager r new (rw same_timers v.timers_ok);
}

-- A run that is not queued leaves the queue as it is.
pub settled :
    (s : RunManager) (r : String) (run : Run)
    → Inv s
    → get r s.repo ≡ some run
    → run.state ≢ queued
    → (j : String)
    → get j s.queue.run_to_user ≡ (if r == j then none else get j s.queue.run_to_user)
settled s r run v e n j = ground (arith, absent_from_queue s r run v e n, eq_iff r j)

pub finish-valid-Inv :
    (s : RunManager) (r : String) (run : Run) (new : RunState) (meta : Metadata) (now : ℕ)
    → Inv s
    → get r s.repo ≡ some run
    → run.state ≢ queued
    → is_terminal_state new ≡ true
    → Inv (moved (let_go s r run) r run new meta now)
finish-valid-Inv s r run new meta now v e n t = Moves-Inv s _ r run _ v (
    ended-Moves s (let_go s r run) r run new meta now v e t refl refl v.queue_ok
      (release_of-IsConsistent s.lease_manager (truthy run.lease_token) v.leases_ok)
      (settled s r run v e n))

pub let_go-Inv : (s : RunManager) (r : String) (run : Run) → Inv s → Inv (let_go s r run)
let_go-Inv s r run v = record {
  queue_ok = v.queue_ok;
  leases_ok = release_of-IsConsistent s.lease_manager (truthy run.lease_token) v.leases_ok;
  timers_ok = v.timers_ok;
  filed = v.filed;
  enqueued = v.enqueued;
  waits = v.waits;
  scheduled = v.scheduled;
}

pub expire-Inv :
    (s : RunManager) (r : String) (run : Run) (meta : Metadata) (now : ℕ)
    → Inv s
    → get r s.repo ≡ some run
    → run.state ≡ running
    → Inv (moved (expired s r run) r run timed_out meta now)
expire-Inv s r run meta now v e t = Moves-Inv s _ r run _ v (
    ended-Moves s (expired s r run) r run timed_out meta now v e (unfold is_terminal_state in refl)
      refl refl v.queue_ok
      (release_of-IsConsistent s.lease_manager (truthy run.lease_token) v.leases_ok)
      (settled s r run v e (ground arith)))

-- The queue that a cancellation leaves is well formed and has lost the run.
pub queue_without-lem :
    (s : RunManager) (r : String) (run : Run)
    → Inv s
    → get r s.repo ≡ some run
    → IsWellFormed (queue_without run.state s.queue r)
      × ((j : String)
          → get j (queue_without run.state s.queue r).run_to_user
            ≡ (if r == j then none else get j s.queue.run_to_user))
queue_without-lem s r run v e = by_state run.state refl
  where
    by_state :
        (state : RunState)
        → run.state ≡ state
        → IsWellFormed (queue_without state s.queue r)
          × ((j : String)
              → get j (queue_without state s.queue r).run_to_user
                ≡ (if r == j then none else get j s.queue.run_to_user))
    by_state queued q =
        let gone =
          remove_waiting s.queue v.queue_ok r run.user_id (v.waits r run e q) (v.filed r run e).1 in
        (gone.2, gone.1.owner_after)
    by_state _ q = (v.queue_ok, settled s r run v e (ground arith))

-- A run waits in no queue but its user's, and there only while it is queued.
absent_elsewhere :
    (s : RunManager) (r w : String) (run : Run)
    → Inv s
    → get r s.repo ≡ some run
    → (run.state ≢ queued) ⊎ ((run.user_id == w) ≡ false)
    → includes r (lane s.queue w) ≡ false
absent_elsewhere s r w run v e h = elim (Bool-cases (includes r (lane s.queue w))) [
  | inr f ↦ f
  | inl f ↦
      let there : IsWaiting (some run) w =
        subst (λ o. IsWaiting o w) e (v.enqueued r w (v.queue_ok.owned w r f)) in
      elim h [ inl n ↦ absurd (n there.0) | inr n ↦ ground (arith, there.1, eq_iff run.user_id w) ]
]

-- Every queue that a cancellation leaves is the one before without the run.
pub lane-queue_without :
    (s : RunManager) (r : String) (run : Run)
    → Inv s
    → get r s.repo ≡ some run
    → (w : String) → lane (queue_without run.state s.queue r) w ≡ erase r (lane s.queue w)
lane-queue_without s r run v e w = by_state run.state refl
  where
    by_state :
        (state : RunState)
        → run.state ≡ state
        → lane (queue_without state s.queue r) w ≡ erase r (lane s.queue w)
    by_state queued q =
        let gone =
          remove_waiting s.queue v.queue_ok r run.user_id (v.waits r run e q) (v.filed r run e).1 in
        gone.1.lane_after w ∙ elim (Bool-cases (run.user_id == w)) [
          | inl f ↦ rw f (ap (λ u. erase r (lane s.queue u)) ((eq_iff run.user_id w).0 f))
          | inr f ↦
              rw f (sym (erase_absent r (lane s.queue w) (absent_elsewhere s r w run v e (inr f))))
        ]
    by_state _ q =
        sym (erase_absent r (lane s.queue w) (absent_elsewhere s r w run v e (inl (λ p. cc))))

pub cancel-Inv :
    (s : RunManager) (r : String) (run : Run) (reason : String) (meta : Metadata) (now : ℕ)
    → Inv s
    → get r s.repo ≡ some run
    → Inv (moved (withdrawn s r run reason) r run cancelled meta now)
cancel-Inv s r run reason meta now v e =
    let (wf, gone) = queue_without-lem s r run v e in
    Moves-Inv s _ r run _ v (
      ended-Moves s (withdrawn s r run reason) r run cancelled meta now v e
        (unfold is_terminal_state in refl) refl refl wf
        (release_of-IsConsistent s.lease_manager (truthy run.lease_token) v.leases_ok) gone)
