-- ===== src/RunManager/Effects.antt =====
-- The effect of each operation of the run manager in one equation: result and final state.
use minerva.Base.{
  ℕ, String, ◌≡◌, refl, Bool, true, false, Option, none, some, arith, or_else, truthy,
}
use minerva.Dict.{get, set}
use minerva.Exec.{ok, err}
use minerva.Run.{
  Run, RunState, queued, leased, running, cancelled, timed_out, invalid_state_transition,
  is_valid_state_transition, is_terminal_state,
}
use minerva.Lease.{Lease, LeaseManager}
use minerva.Lease
use minerva.Queue.{RunQueue}
use minerva.Queue
use minerva.Timeout.{TimeoutManager}
use minerva.Timeout
use minerva.Cancellation
use minerva.RunManager.{
  RunManager, release_lease, signal_cancellation, remove_context, create_context, schedule_timeout,
}
use minerva.RunManager.Operations.{
  Metadata, no_metadata, transition_updates, transition_state, start_run, cancel_run,
  remove_if_queued, finish_run, expire_run, timeout_message,
}
use minerva.RunManager.Transition.{moved, transition_invalid, transition_valid, require_found}

-- `if (token) release(token)`
abbrev pub release_of : LeaseManager → Option String → LeaseManager
release_of m none = m
release_of m (some token) = Lease.release m token

abbrev pub released : LeaseManager → Option String → LeaseManager
released m token = release_of m (truthy token)

release_lease_lem :
    (token : Option String) (s : RunManager)
    → release_lease token s ≡ (ok tt, record s { lease_manager = released s.lease_manager token })
unfolding release_lease
release_lease_lem token s = ground arith

-- A leased run starts: it runs, has a new cancellation context and a timeout of its duration.
abbrev pub started : RunManager → String → Run → ℕ → RunManager
started s r run now = record s {
  repo = set r (transition_updates running no_metadata now run) s.repo;
  cancellation_registry = (Cancellation.create s.cancellation_registry r).0;
  timeout_manager = Timeout.schedule s.timeout_manager r run.max_duration_ms now;
}

pub start_found :
    (s : RunManager) (r : String) (run : Run) (now : ℕ)
    → get r s.repo ≡ some run
    → run.state ≡ leased
    → start_run r now s ≡ (ok (transition_updates running no_metadata now run), started s r run now)
unfolding start_run create_context schedule_timeout
start_found s r run now e l =
    rw
      (transition_valid s r running no_metadata now run e
        (rw l (unfold is_valid_state_transition in refl)))
      (unfold transition_updates is_terminal_state in refl)

pub start_refused :
    (s : RunManager) (r : String) (run : Run) (now : ℕ)
    → get r s.repo ≡ some run
    → is_valid_state_transition run.state running ≡ false
    → start_run r now s ≡ (err (invalid_state_transition r run.state running), s)
unfolding start_run
start_refused s r run now e b = rw (transition_invalid s r running no_metadata now run e b)

-- What a cancellation does before the transition.
abbrev pub queue_without : RunState → RunQueue → String → RunQueue
queue_without queued q r = (Queue.remove q r).0
queue_without _ q r = q

abbrev pub withdrawn : RunManager → String → Run → String → RunManager
withdrawn s r run reason = record s {
  queue = queue_without run.state s.queue r;
  lease_manager = released s.lease_manager run.lease_token;
  cancellation_registry = (Cancellation.cancel s.cancellation_registry r (some reason)).0;
}

abbrev pub error_only : String → Metadata
error_only message = record { error = some message; final_messages = none }

abbrev found_by_remove : RunState → RunQueue → String → Bool
found_by_remove queued q r = (Queue.remove q r).1
found_by_remove _ q r = false

remove_if_queued_lem :
    (r : String) (state : RunState) (s : RunManager)
    → remove_if_queued r state s
      ≡ (ok (found_by_remove state s.queue r), record s { queue = queue_without state s.queue r })
unfolding remove_if_queued
remove_if_queued_lem r queued s = refl
remove_if_queued_lem r _ s = refl

pub cancel_found :
    (s : RunManager) (r : String) (run : Run) (reason : Option String) (now : ℕ)
    → get r s.repo ≡ some run
    → is_terminal_state run.state ≡ false
    → cancel_run r reason now s
      ≡ transition_state r cancelled
          (error_only (or_else reason "cancelled"))
          now
          (withdrawn s r run (or_else reason "user_cancelled"))
unfolding cancel_run signal_cancellation
cancel_found s r run reason now e t = rw (require_found s r run e) (
    rw t (
      rw (remove_if_queued_lem r run.state s) (
        rw
          (release_lease_lem run.lease_token
            (record s { queue = queue_without run.state s.queue r }))
          refl)))

pub cancel_finished :
    (s : RunManager) (r : String) (run : Run) (reason : Option String) (now : ℕ)
    → get r s.repo ≡ some run
    → is_terminal_state run.state ≡ true
    → cancel_run r reason now s ≡ (ok run, s)
unfolding cancel_run
cancel_finished s r run reason now e t = rw (require_found s r run e) (rw t)

-- `completeRun` and `failRun` release the lease and drop the context before the transition is checked.
abbrev pub let_go : RunManager → String → Run → RunManager
let_go s r run = record s {
  lease_manager = released s.lease_manager run.lease_token;
  cancellation_registry = Cancellation.remove s.cancellation_registry r;
}

pub finish_found :
    (s : RunManager) (r : String) (run : Run) (new : RunState) (meta : Metadata) (now : ℕ)
    → get r s.repo ≡ some run
    → finish_run r new meta now s ≡ transition_state r new meta now (let_go s r run)
unfolding finish_run remove_context
finish_found s r run new meta now e =
    rw (require_found s r run e) (rw (release_lease_lem run.lease_token s) refl)

abbrev pub expired : RunManager → String → Run → RunManager
expired s r run = record s {
  lease_manager = released s.lease_manager run.lease_token;
  cancellation_registry = (Cancellation.cancel s.cancellation_registry r (some "timeout")).0;
}

pub expire_running :
    (s : RunManager) (r : String) (run : Run) (now : ℕ)
    → get r s.repo ≡ some run
    → run.state ≡ running
    → expire_run r (some run) now s ≡ (
      ok tt,
      moved
          (expired s r run)
          r
          run
          timed_out
          (error_only (timeout_message run.max_duration_ms))
          now,
    )
unfolding expire_run signal_cancellation
expire_running s r run now e t =
    let live : is_terminal_state run.state ≡ false = rw t (unfold is_terminal_state in refl) in
    let valid : is_valid_state_transition run.state timed_out ≡ true =
      rw t (unfold is_valid_state_transition in refl) in
    rw live (
      rw (release_lease_lem run.lease_token s) (
        rw (
          transition_valid (expired s r run) r timed_out
            (error_only (timeout_message run.max_duration_ms)) now run e valid)))
