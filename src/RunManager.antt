-- ===== src/RunManager.antt =====
-- services/orchestrator/src/services/run-manager.ts: the life of a run, over the repository, the
-- queue, the leases, the cancellation registry and the timeouts.
pub mod Operations
pub mod Invariant
pub mod Transition
pub mod Effects
pub mod Acquire
pub mod Preservation
pub mod Admission
pub mod Events
pub mod Steps
pub mod Expiry
pub mod Histories
pub mod Outcomes
pub mod Endings
pub mod Races
use Prim.Native.Nat.{◌/◌, ◌%◌}
use Prim.Native.Char.{Char}
use minerva.Base.{
  ℕ, zero, suc, ◌+◌, min, String, Bool, true, false, Option, none, some, List, [], ◌∷◌, ◌==◌,
  if◌then◌else◌, or_else, truthy, ltb,
}
use minerva.Dict.{Dict, get, set, delete, values}
use minerva.Exec.{Result, ok, err, Exec, pure, throw, or_throw, gets, ◌>>=◌, ◌>>◌}
use minerva.Owner.{
  OwnerPrincipal, owner_key_from_principal, legacy_owner_principal_from_user_id, hex_digit,
}
use minerva.Run.{
  Run, RunMetadata, CreateRunInput, AgentMessage, RunState, queued, leased, running, completed,
  failed, cancelled, timed_out, RunError, run_not_found, invalid_state_transition,
  is_valid_state_transition, is_terminal_state, state_eq,
}
use minerva.Queue.{RunQueue}
use minerva.Queue
use minerva.Lease.{Lease, LeaseManager, default_lease_ttl_ms}
use minerva.Lease
use minerva.Cancellation.{CancellationRegistry}
use minerva.Cancellation
use minerva.Timeout.{TimeoutManager, default_run_timeout_ms, max_run_timeout_ms}
use minerva.Timeout

pub record RunManagerConfig : Type 0 where
  pub default_timeout_ms : ℕ
  pub max_timeout_ms : ℕ
  pub lease_ttl_ms : ℕ

pub record RunManager : Type 0 where
  -- the map of `InMemoryRunRepository`
  pub repo : Dict Run
  pub queue : RunQueue
  pub lease_manager : LeaseManager
  pub cancellation_registry : CancellationRegistry
  pub timeout_manager : TimeoutManager
  pub config : RunManagerConfig

abbrev pub default_config : RunManagerConfig
default_config = record {
  default_timeout_ms = default_run_timeout_ms;
  max_timeout_ms = max_run_timeout_ms;
  lease_ttl_ms = default_lease_ttl_ms;
}

abbrev pub new : RunManagerConfig → RunManager
new config = record {
  repo = [];
  queue = Queue.empty;
  lease_manager = Lease.empty;
  cancellation_registry = Cancellation.empty;
  timeout_manager = Timeout.empty;
  config = config;
}

abbrev pub Action : Type 0 → Type 0
Action A = Exec RunManager RunError A

-- The repository hands out and takes in copies, so a run is a value.
unfoldable pub repo_create : Run → Action Unit
repo_create run s = (ok tt, record s { repo = set run.id run s.repo })

unfoldable pub repo_get : String → Action (Option Run)
repo_get run_id s = (ok (get run_id s.repo), s)

of_user : String → List Run → List Run
of_user user_id [] = []
of_user user_id (run ∷ runs) =
    let rest = of_user user_id runs in if run.user_id == user_id then run ∷ rest else rest

unfoldable pub repo_get_by_user_id : String → Action (List Run)
unfolding of_user
repo_get_by_user_id user_id s = (ok (of_user user_id (values s.repo)), s)

-- `Object.assign(run, updates)`, with the function that writes the fields of `updates`.
unfoldable pub repo_update : String → (Run → Run) → Action Unit
repo_update run_id updates s = elim (get run_id s.repo) [
  | none ↦ (err (run_not_found run_id), s)
  | some run ↦ (ok tt, record s { repo = set run_id (updates run) s.repo })
]

unfoldable pub repo_delete : String → Action Unit
repo_delete run_id s = (ok tt, record s { repo = delete run_id s.repo })

-- `getById` where the method throws `RunNotFoundError` on a missing run.
unfoldable pub require_run : String → Action Run
require_run run_id s = or_throw (get run_id s.repo) (run_not_found run_id) s

unfoldable pub enqueue : String → String → Action ℕ
enqueue run_id user_id s =
    let (queue, position) = Queue.enqueue s.queue run_id user_id in
    (ok position, record s { queue = queue })

unfoldable pub dequeue : String → Action (Option String)
dequeue user_id s =
    let (queue, run_id) = Queue.dequeue s.queue user_id in (ok run_id, record s { queue = queue })

unfoldable pub remove_from_queue : String → Action Bool
remove_from_queue run_id s =
    let (queue, found) = Queue.remove s.queue run_id in (ok found, record s { queue = queue })

unfoldable pub acquire_lease : String → String → String → ℕ → Action (Option Lease)
acquire_lease user_id run_id token now s =
    let (leases, lease) =
      Lease.acquire s.lease_manager user_id run_id s.config.lease_ttl_ms token now in
    (ok lease, record s { lease_manager = leases })

-- `if (run.leaseToken) await this.leaseManager.release(run.leaseToken)`
unfoldable pub release_lease : Option String → Action Unit
release_lease lease_token s = elim (truthy lease_token) [
  | none ↦ (ok tt, s)
  | some token ↦ (ok tt, record s { lease_manager = Lease.release s.lease_manager token })
]

unfoldable pub signal_cancellation : String → String → Action Bool
signal_cancellation run_id reason s =
    let (registry, found) = Cancellation.cancel s.cancellation_registry run_id (some reason) in
    (ok found, record s { cancellation_registry = registry })

unfoldable pub remove_context : String → Action Unit
remove_context run_id s =
    (ok tt, record s { cancellation_registry = Cancellation.remove s.cancellation_registry run_id })

unfoldable pub create_context : String → Action ℕ
create_context run_id s =
    let (registry, context) = Cancellation.create s.cancellation_registry run_id in
    (ok context, record s { cancellation_registry = registry })

unfoldable pub clear_timeout : String → Action Bool
clear_timeout run_id s =
    let (timeouts, found) = Timeout.clear s.timeout_manager run_id in
    (ok found, record s { timeout_manager = timeouts })

unfoldable pub schedule_timeout : String → ℕ → ℕ → Action Unit
schedule_timeout run_id delay_ms now s =
    (ok tt, record s { timeout_manager = Timeout.schedule s.timeout_manager run_id delay_ms now })
