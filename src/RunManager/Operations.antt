-- ===== src/RunManager/Operations.antt =====
-- The operations of services/orchestrator/src/services/run-manager.ts. An operation reads the clock
-- once, `now`; the random parts of a run's id and of a lease's token are arguments.
use Prim.Native.Nat.{◌/◌, ◌%◌}
use minerva.Base.{
  ℕ, zero, suc, min, String, Bool, false, Option, none, some, List, if◌then◌else◌, or_else, truthy,
  ltb,
}
use minerva.Exec.{pure, throw, gets, ◌>>=◌, ◌>>◌}
use minerva.Owner.{
  OwnerPrincipal, owner_key_from_principal, legacy_owner_principal_from_user_id, hex_digit,
}
use minerva.Run.{
  Run, RunMetadata, CreateRunInput, AgentMessage, RunState, queued, leased, running, completed,
  failed, cancelled, timed_out, invalid_state_transition, is_valid_state_transition,
  is_terminal_state,
}
use minerva.Lease.{Lease}
use minerva.Queue
use minerva.Timeout
use minerva.Cancellation
use minerva.RunManager.{
  RunManager, RunManagerConfig, Action, repo_create, repo_get, repo_get_by_user_id, repo_update,
  require_run, enqueue, dequeue, remove_from_queue, acquire_lease, release_lease,
  signal_cancellation, remove_context, create_context, clear_timeout, schedule_timeout,
}

-- The run that `createRun` makes, before it is queued.
unfoldable pub new_run : RunManagerConfig → CreateRunInput → String → ℕ → Run
new_run config input run_id now =
    let owner : OwnerPrincipal =
      or_else input.owner
        (legacy_owner_principal_from_user_id (or_else input.user_id "anonymous")) in
    record {
      id = run_id;
      owner = owner;
      user_id = owner_key_from_principal owner;
      state = queued;
      queue_position = none;
      lease_token = none;
      lease_expires_at = none;
      created_at = now;
      started_at = none;
      completed_at = none;
      timeout_at = none;
      max_duration_ms =
          min (or_else input.max_duration_ms config.default_timeout_ms) config.max_timeout_ms;
      agent_pack_id = input.agent_pack_id;
      prompt = input.prompt;
      error = none;
      final_messages = none;
    }

unfoldable pub create_run : CreateRunInput → String → ℕ → Action Run
unfolding repo_create enqueue repo_update
create_run input run_id now = do
  config ← gets (λ s. s.config)
  let run = new_run config input run_id now
  repo_create run
  position ← enqueue run_id run.user_id
  repo_update run_id (λ r. record r { queue_position = some position })
  pure (record run { queue_position = some position })

unfoldable pub get_run : String → Action (Option Run)
unfolding repo_get
get_run run_id = repo_get run_id

unfoldable pub get_user_runs : String → Action (List Run)
unfolding repo_get_by_user_id
get_user_runs user_id = repo_get_by_user_id user_id

-- The argument `metadata` of `transitionState`.
pub record Metadata : Type 0 where
  pub error : Option String
  pub final_messages : Option (List AgentMessage)

abbrev pub no_metadata : Metadata
no_metadata = record { error = none; final_messages = none }

abbrev or_keep {ℓ} : {A : Type ℓ} → Option A → Option A → Option A
or_keep none old = old
or_keep (some a) old = some a

abbrev start_time : RunState → Option ℕ → ℕ → Option ℕ
start_time running none now = some now
start_time _ started now = started

-- The fields that `transitionState` writes.
unfoldable pub transition_updates : RunState → Metadata → ℕ → Run → Run
unfolding is_terminal_state
transition_updates new_state metadata now run =
    let terminal = is_terminal_state new_state in
    record run {
      state = new_state;
      started_at = start_time new_state run.started_at now;
      completed_at = if terminal then some now else run.completed_at;
      queue_position = if terminal then none else run.queue_position;
      error = or_keep (truthy metadata.error) run.error;
      final_messages = or_keep metadata.final_messages run.final_messages;
    }

-- A terminal state clears the run's timeout.
unfoldable pub clear_if_terminal : String → RunState → Action Bool
unfolding clear_timeout
clear_if_terminal run_id new_state =
    if is_terminal_state new_state then clear_timeout run_id else pure false

unfoldable pub transition_state : String → RunState → Metadata → ℕ → Action Run
transition_state run_id new_state metadata now = do
  run ← require_run run_id
  if is_valid_state_transition run.state new_state
      then (do
        clear_if_terminal run_id new_state
        repo_update run_id (transition_updates new_state metadata now)
        require_run run_id)
      else throw (invalid_state_transition run_id run.state new_state)

unfoldable pub lease_updates : Lease → ℕ → Run → Run
lease_updates lease now run = record run {
  state = leased;
  lease_token = some lease.token;
  lease_expires_at = some lease.expires_at;
  queue_position = none;
  started_at = some now;
}

-- The rest of `acquireNextRun`, once the lease of the next run is decided.
unfoldable pub take_leased : String → String → ℕ → Option Lease → Action (Option Run)
take_leased user_id run_id now none = pure none
take_leased user_id run_id now (some lease) = do
  dequeue user_id
  repo_update run_id (lease_updates lease now)
  repo_get run_id

unfoldable pub acquire_next : String → String → ℕ → Option String → Action (Option Run)
acquire_next user_id token now none = pure none
acquire_next user_id token now (some run_id) = do
  lease ← acquire_lease user_id run_id token now
  take_leased user_id run_id now lease

unfoldable pub acquire_next_run : String → String → ℕ → Action (Option Run)
unfolding acquire_next
acquire_next_run user_id token now = do
  next ← gets (λ s. truthy (Queue.peek s.queue user_id))
  acquire_next user_id token now next

unfoldable pub start_run : String → ℕ → Action Run
start_run run_id now = do
  run ← transition_state run_id running no_metadata now
  create_context run_id
  schedule_timeout run_id run.max_duration_ms now
  pure run

unfoldable pub remove_if_queued : String → RunState → Action Bool
unfolding remove_from_queue
remove_if_queued run_id queued = remove_from_queue run_id
remove_if_queued run_id _ = pure false

unfoldable pub cancel_run : String → Option String → ℕ → Action Run
cancel_run run_id reason now = do
  run ← require_run run_id
  if is_terminal_state run.state then pure run else (do
    remove_if_queued run_id run.state
    release_lease run.lease_token
    signal_cancellation run_id (or_else reason "user_cancelled")
    transition_state run_id cancelled
        (record { error = some (or_else reason "cancelled"); final_messages = none }) now)

-- The decimal digits of a number below 10^21, in front of a text.
digits_onto : ℕ → ℕ → String → String
digits_onto zero n rest = rest
digits_onto (suc fuel) n rest =
    let shorter = digits_onto fuel (n / 10) (String.◌∷◌ (hex_digit (n % 10)) rest) in
    if ltb n 10 then String.◌∷◌ (hex_digit (n % 10)) rest else shorter

abbrev prepend : String → String → String
prepend String.[] rest = rest
prepend (String.◌∷◌ c s) rest = String.◌∷◌ c (prepend s rest)

unfoldable pub timeout_message : ℕ → String
unfolding digits_onto hex_digit
timeout_message ms = prepend "Run exceeded maximum duration of " (digits_onto 21 ms "ms")

-- `timeoutRun` for a run that the repository may not have.
unfoldable pub expire_run : String → Option Run → ℕ → Action Unit
expire_run run_id none now = pure tt
expire_run run_id (some run) now = if is_terminal_state run.state then pure tt else (do
  release_lease run.lease_token
  signal_cancellation run_id "timeout"
  transition_state run_id timed_out
      (record { error = some (timeout_message run.max_duration_ms); final_messages = none }) now
  pure tt)

unfoldable pub timeout_run : String → ℕ → Action Unit
unfolding expire_run repo_get
timeout_run run_id now = do run ← repo_get run_id; expire_run run_id run now

-- `completeRun` and `failRun` once the run is known.
unfoldable pub finish_run : String → RunState → Metadata → ℕ → Action Run
finish_run run_id new_state metadata now = do
  run ← require_run run_id
  release_lease run.lease_token
  remove_context run_id
  transition_state run_id new_state metadata now

unfoldable pub complete_run : String → Option (List AgentMessage) → ℕ → Action Run
unfolding finish_run
complete_run run_id final_messages now =
    finish_run run_id completed (record { error = none; final_messages = final_messages }) now

-- `error` is the message of an `Error`, or the text itself.
unfoldable pub fail_run : String → String → ℕ → Action Run
unfolding finish_run
fail_run run_id error now =
    finish_run run_id failed (record { error = some error; final_messages = none }) now

unfoldable pub get_cancellation_signal : RunManager → String → Option ℕ
get_cancellation_signal s run_id = Cancellation.lookup s.cancellation_registry run_id

unfoldable pub is_cancelled : RunManager → String → Bool
is_cancelled s run_id = Cancellation.is_cancelled s.cancellation_registry run_id

unfoldable pub to_metadata : Run → RunMetadata
to_metadata run = record {
  run_id = run.id;
  state = run.state;
  created_at = run.created_at;
  started_at = run.started_at;
  completed_at = run.completed_at;
  queue_position = run.queue_position;
  error = run.error;
}

-- The event loop runs a timer: if it is due, its run times out.
unfoldable pub time_out : Option String → ℕ → Action Unit
unfolding timeout_run
time_out none now = pure tt
time_out (some run_id) now = timeout_run run_id now

unfoldable pub run_timer : ℕ → ℕ → Action Unit
unfolding time_out
run_timer timer now s =
    let (timeouts, fired) = Timeout.fire s.timeout_manager timer now in
    time_out fired now (record s { timeout_manager = timeouts })
