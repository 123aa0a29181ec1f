-- ===== src/Execution.antt =====
-- services/orchestrator/src/runtime/run-execution.service.ts: the service that takes requests for
-- runs, works off the queue of a user, executes a run and tells its clients. What stands between two
-- `await`s is one action; the agent, the sandbox, the pack and the health of the provider are
-- arguments that carry what they answered.
pub mod Admission
pub mod Attempt
pub mod Ends
pub mod Errors
pub mod Notices
pub mod Operations
pub mod Outcome
pub mod Races
pub mod Requests
pub mod Rounds
pub mod Taken
use minerva.Base.{
  ℕ, ◌-◌, String, ◌≡◌, Bool, true, false, Option, none, some, List, [], ◌∷◌, ◌++◌, ◌==◌, not, ◌||◌,
  if◌then◌else◌, or_else, includes, leb,
}
use minerva.Base.Integers.{ℤ}
use minerva.Dict.{Dict}
use minerva.Exec.{Result, ok, err, Exec}
use minerva.Run.{RunError}
use minerva.RunManager.{RunManager, Action}
use minerva.RunManager
use minerva.Sse.{EventType}
use minerva.Sse.Streams.{Condition}
use minerva.Sse.Service.{SseService, broadcast_orchestrator_event, close_run}
use minerva.Sse.Service

-- The payloads of the service's events, one constructor for each shape. A time is a number of
-- milliseconds. `value` is a value of the agent.
pub data EventPayload : Type 0 where
  run_queued_payload : ℕ → EventPayload
  run_started_payload : ℕ → String → EventPayload
  run_completed_payload : ℕ → ℤ → EventPayload
  run_failed_payload : ℕ → String → EventPayload
  run_cancelled_payload : ℕ → String → EventPayload
  run_timed_out_payload : ℕ → ℕ → EventPayload
  value : String → EventPayload

-- The errors that come out of the service's methods: the exceptions of the framework, by their
-- message, the errors of the run manager, and an error of the code that it calls.
pub data ExecutionError : Type 0 where
  bad_request not_found internal_server_error service_unavailable thrown : String → ExecutionError
  run_error : RunError → ExecutionError

pub record Published : Type 0 where
  pub run_id : String
  pub type : EventType
  pub payload : EventPayload

pub record RunExecutionService : Type 0 where
  pub run_manager : RunManager
  pub sse_service : SseService EventPayload
  pub processing_users : List String
  pub terminal_events : List String
  -- the runs whose signal has a listener, with the run's duration, which the listener holds
  pub listeners : Dict ℕ
  -- the calls of `broadcastOrchestratorEvent`, in their order
  pub published : List Published

abbrev pub new : RunManager → RunExecutionService
new manager = record {
  run_manager = manager;
  sse_service = Service.new;
  processing_users = [];
  terminal_events = [];
  listeners = [];
  published = [];
}

abbrev pub Call : Type 0 → Type 0
Call A = Exec RunExecutionService ExecutionError A

-- What an action sees when it tells the clients: what each stream does, and the time.
pub record Moment : Type 0 where
  pub condition : String → Condition
  pub now : ℕ

-- A call of a method of the run manager, and what its result means to the caller.
abbrev pub passed : {A : Type 0} → Result RunError A → Result ExecutionError A
passed (ok a) = ok a
passed (err e) = err (run_error e)

unfoldable pub manage : {A : Type 0} → Action A → Call A
manage action s =
    let (result, manager) = action s.run_manager in
    (passed result, record s { run_manager = manager })

unfoldable pub publish :
    Moment → String → EventType → EventPayload → RunExecutionService → RunExecutionService
publish m run_id type payload s = record s {
  sse_service =
      (broadcast_orchestrator_event s.sse_service run_id type payload m.condition m.now).0;
  published = s.published ++ record { run_id = run_id; type = type; payload = payload } ∷ [];
}

unfoldable pub emit_terminal_once :
    Moment → String → EventType → EventPayload → RunExecutionService → RunExecutionService
unfolding publish
emit_terminal_once m run_id type payload s =
    if includes run_id s.terminal_events
    then s
    else publish m run_id type payload
        (record s { terminal_events = s.terminal_events ++ run_id ∷ [] })

-- `this.terminalEvents.delete(runId)`
abbrev pub without : String → List String → List String
without a [] = []
without a (x ∷ xs) = let rest = without a xs in if x == a then rest else x ∷ rest

unfoldable pub forget_terminal : String → RunExecutionService → RunExecutionService
forget_terminal run_id s = record s { terminal_events = without run_id s.terminal_events }

unfoldable pub close_streams : String → RunExecutionService → RunExecutionService
close_streams run_id s = record s { sse_service = (close_run s.sse_service run_id).0 }

-- A change that always succeeds.
abbrev pub does : (RunExecutionService → RunExecutionService) → Call Unit
does f s = (ok tt, f s)
