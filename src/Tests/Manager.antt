-- ===== src/Tests/Manager.antt =====
-- The run manager at concrete inputs.
use minerva.Base.{subst, String, ◌≡◌, ◌≢◌, refl, eq_iff, none, some, [], ◌∷◌, arith}
use minerva.Dict.{get, set, delete}
use minerva.Owner.{owner_key_from_principal, legacy_owner_principal_from_user_id}
use minerva.Queue
use minerva.Lease
use minerva.Timeout
use minerva.Cancellation
use minerva.Cancellation.{new_context}
use minerva.RunManager
use minerva.Run.{
  Run, queued, leased, running, CreateRunInput, is_valid_state_transition, is_terminal_state,
}
use minerva.Lease.{Lease}
use minerva.Timeout.{TimeoutHandle}
use minerva.RunManager.{
  RunManager, default_config, new, repo_create, repo_update, repo_get, require_run, acquire_lease,
  create_context, schedule_timeout,
}
use minerva.RunManager.Operations.{
  create_run, new_run, acquire_next_run, start_run, transition_updates, lease_updates, take_leased,
  transition_state, clear_if_terminal,
}
use minerva.RunManager.Invariant.{Inv}
use minerva.RunManager.Events.{creates, acquires, starts, step, IsFresh}
use minerva.RunManager.Histories.{new-Inv, step-IsGood}

abbrev pub input : CreateRunInput
input = record {
  owner = none;
  user_id = some "ann";
  agent_pack_id = "pack";
  prompt = "hello";
  max_duration_ms = some 500;
}

abbrev pub ann : String
ann = "ann"

pub ann-named : ann ≢ ""
ann-named p = absurd (ground (arith, eq_iff ann "", p))

abbrev pub s0 : RunManager
s0 = new default_config

-- `r1` is created at time 1.
abbrev pub r1_queued : Run
r1_queued = record {
  id = "r1";
  owner = record { tenant_id = "legacy"; subject_id = "ann" };
  user_id = "ann";
  state = queued;
  queue_position = some 0;
  lease_token = none;
  lease_expires_at = none;
  created_at = 1;
  started_at = none;
  completed_at = none;
  timeout_at = none;
  max_duration_ms = 500;
  agent_pack_id = "pack";
  prompt = "hello";
  error = none;
  final_messages = none;
}

abbrev pub s1 : RunManager
s1 = record s0 {
  repo = ("r1", r1_queued) ∷ [];
  queue = record { queues = ("ann", "r1" ∷ []) ∷ []; run_to_user = ("r1", "ann") ∷ [] };
}

-- It is leased under `t1` at time 2.
abbrev pub lease1 : Lease
lease1 = record { run_id = "r1"; token = "t1"; acquired_at = 2; expires_at = 30002 }

abbrev pub r1_leased : Run
r1_leased = record r1_queued {
  state = leased;
  lease_token = some "t1";
  lease_expires_at = some 30002;
  queue_position = none;
  started_at = some 2;
}

abbrev pub s2 : RunManager
s2 = record s1 {
  repo = ("r1", r1_leased) ∷ [];
  queue = record { queues = []; run_to_user = [] };
  lease_manager = record { leases = ("ann", lease1) ∷ []; token_to_user = ("t1", "ann") ∷ [] };
}

-- It starts at time 3.
abbrev pub r1_running : Run
r1_running = record r1_leased { state = running }

abbrev pub handle1 : TimeoutHandle
handle1 = record { run_id = "r1"; timer = 0; scheduled_at = 3; timeout_at = 503 }

abbrev pub s3 : RunManager
s3 = record s2 {
  repo = ("r1", r1_running) ∷ [];
  cancellation_registry = record { contexts = ("r1", 0) ∷ []; store = new_context "r1" ∷ [] };
  timeout_manager = record {
    timeouts = ("r1", handle1) ∷ [];
    pending = (record { id = 0; run_id = "r1"; due = 503 }) ∷ [];
    next_timer = 1;
  };
}

-- `r2` is created at time 4.
abbrev pub r2_queued : Run
r2_queued = record r1_queued { id = "r2"; created_at = 4 }

abbrev pub s4 : RunManager
s4 = record s3 {
  repo = ("r1", r1_running) ∷ ("r2", r2_queued) ∷ [];
  queue = record { queues = ("ann", "r2" ∷ []) ∷ []; run_to_user = ("r2", "ann") ∷ [] };
}

created_r1 : step s0 (creates input "r1" 1) ≡ s1
unfolding step create_run new_run owner_key_from_principal legacy_owner_principal_from_user_id
    repo_create RunManager.enqueue Queue.enqueue repo_update get set
created_r1 = refl

leased_r1 : step s1 (acquires "ann" "t1" 2) ≡ s2
unfolding step acquire_next_run Queue.peek RunManager.dequeue Queue.dequeue repo_update repo_get get
    set delete acquire_lease Lease.acquire lease_updates take_leased
leased_r1 = refl

started_r1 : step s2 (starts "r1" 3) ≡ s3
unfolding step start_run transition_state require_run repo_update clear_if_terminal
    transition_updates create_context schedule_timeout Cancellation.create Cancellation.remove
    Timeout.schedule Timeout.clear Timeout.start get set delete is_valid_state_transition
    is_terminal_state
started_r1 = refl

created_r2 : step s3 (creates input "r2" 4) ≡ s4
unfolding step create_run new_run owner_key_from_principal legacy_owner_principal_from_user_id
    repo_create RunManager.enqueue Queue.enqueue repo_update get set
created_r2 = refl

pub r1-IsFresh : IsFresh s0 (creates input "r1" 1)
unfolding get new_run owner_key_from_principal legacy_owner_principal_from_user_id
r1-IsFresh = (refl, ann-named)

pub t1-IsFresh : IsFresh s1 (acquires "ann" "t1" 2)
unfolding get
t1-IsFresh = refl

pub r2-IsFresh : IsFresh s3 (creates input "r2" 4)
unfolding get new_run owner_key_from_principal legacy_owner_principal_from_user_id
r2-IsFresh = (refl, ann-named)

pub s1-Inv : Inv s1
s1-Inv =
    subst Inv created_r1
      (step-IsGood s0 (creates input "r1" 1) (new-Inv default_config) r1-IsFresh).inv

pub s2-Inv : Inv s2
s2-Inv = subst Inv leased_r1 (step-IsGood s1 (acquires "ann" "t1" 2) s1-Inv t1-IsFresh).inv

pub s3-Inv : Inv s3
s3-Inv = subst Inv started_r1 (step-IsGood s2 (starts "r1" 3) s2-Inv tt).inv

pub s4-Inv : Inv s4
s4-Inv = subst Inv created_r2 (step-IsGood s3 (creates input "r2" 4) s3-Inv r2-IsFresh).inv

-- Both runs wait.
abbrev pub r2_second : Run
r2_second = record r2_queued { queue_position = some 1 }

abbrev pub both_waiting : RunManager
both_waiting = record s1 {
  repo = ("r1", r1_queued) ∷ ("r2", r2_second) ∷ [];
  queue = record {
    queues = ("ann", "r1" ∷ "r2" ∷ []) ∷ [];
    run_to_user = ("r1", "ann") ∷ ("r2", "ann") ∷ [];
  };
}

created_behind : step s1 (creates input "r2" 4) ≡ both_waiting
unfolding step create_run new_run owner_key_from_principal legacy_owner_principal_from_user_id
    repo_create RunManager.enqueue Queue.enqueue repo_update get set
created_behind = refl

r2_behind-IsFresh : IsFresh s1 (creates input "r2" 4)
unfolding get new_run owner_key_from_principal legacy_owner_principal_from_user_id
r2_behind-IsFresh = (refl, ann-named)

pub both_waiting-Inv : Inv both_waiting
both_waiting-Inv =
    subst Inv created_behind (step-IsGood s1 (creates input "r2" 4) s1-Inv r2_behind-IsFresh).inv
