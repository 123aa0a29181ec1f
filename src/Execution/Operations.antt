-- ===== src/Execution/Operations.antt =====
-- The methods of services/orchestrator/src/runtime/run-execution.service.ts.
use Prim.Native.String.{◌++◌ as ◌<>◌}
use minerva.Base.{
  ℕ, String, Bool, true, false, Option, none, some, List, [], ◌∷◌, ◌++◌, ◌==◌, not, ◌||◌,
  if◌then◌else◌, or_else, truthy, includes,
}
use mathlib.Core.Option
use minerva.Base.Integers.{ℤ, pos, minus}
use minerva.Base.Text.{trim}
use minerva.Dict.{get, set, delete}
use minerva.Exec.{Result, ok, err, pure, throw, or_throw, gets, ◌>>=◌, ◌>>◌}
use minerva.Owner.{OwnerPrincipal, same_owner_principal}
use minerva.Run.{Run, RunState, AgentMessage, cancelled, timed_out, state_eq}
use minerva.Cancellation.{CancellationRegistry, CancellationContext, load}
use minerva.Timeout
use minerva.RunManager.Operations as Manager
use minerva.Sse.{run_queued, run_started, run_completed, run_failed, run_cancelled, run_timed_out}
use minerva.Sse.Mapper.{AgentEvent}
use minerva.Sse.Service.{broadcast_agent_event}
use minerva.Execution.{
  EventPayload, run_queued_payload, run_started_payload, run_completed_payload, run_failed_payload,
  run_cancelled_payload, run_timed_out_payload, ExecutionError, bad_request, not_found,
  internal_server_error, service_unavailable, thrown, RunExecutionService, Call, Moment, manage,
  publish, emit_terminal_once, without, forget_terminal, close_streams, does,
}
use minerva.Execution.Errors.{enhance_provider_error}

pub record CreateRunRequestBody : Type 0 where
  pub agent_pack_id : Option String
  pub prompt : Option String
  pub max_duration_ms : Option ℕ

-- `processUserQueue` up to its first `await`: whether the caller is the one that works off the queue.
unfoldable pub claim_user : String → Call Bool
claim_user user_id s =
    if includes user_id s.processing_users
    then (ok false, s)
    else (ok true, record s { processing_users = s.processing_users ++ user_id ∷ [] })

-- The `finally` of `processUserQueue`.
unfoldable pub release_user : String → Call Unit
release_user user_id s = (ok tt, record s { processing_users = without user_id s.processing_users })

-- `createRun` up to its `await` of the run manager.
unfoldable pub admit_run : OwnerPrincipal → CreateRunRequestBody → String → Moment → Call Run
admit_run owner body run_id m = do
  prompt ← or_throw (truthy (Option.map trim body.prompt)) (bad_request "prompt is required")
  agent_pack_id ←
      or_throw (truthy (Option.map trim body.agent_pack_id)) (bad_request "agentPackId is required")
  manage (
      Manager.create_run
        (record {
          owner = some owner;
          user_id = none;
          agent_pack_id = agent_pack_id;
          prompt = prompt;
          max_duration_ms = body.max_duration_ms;
        })
        run_id m.now)

-- `createRun` after it.
unfoldable pub announce_run : Run → Moment → Call Run
unfolding claim_user
announce_run run m = do
  does (publish m run.id run_queued (run_queued_payload (or_else run.queue_position 0)))
  claim_user run.user_id
  pure run

-- `createRun` where no other call comes between its parts.
unfoldable pub create_run : OwnerPrincipal → CreateRunRequestBody → String → Moment → Call Run
unfolding admit_run announce_run
create_run owner body run_id m = do run ← admit_run owner body run_id m; announce_run run m

unfoldable pub missing : String → ExecutionError
missing run_id = not_found ("Run '" <> run_id <> "' not found")

unfoldable pub assert_owner : Run → OwnerPrincipal → Call Unit
unfolding missing
assert_owner run owner =
    if not (same_owner_principal run.owner owner) then throw (missing run.id) else pure tt

unfoldable pub get_run : String → OwnerPrincipal → Call Run
unfolding assert_owner missing
get_run run_id owner = do
  found ← manage (Manager.get_run run_id)
  run ← or_throw found (missing run_id)
  assert_owner run owner
  pure run

abbrev pub reason_of : Option CancellationContext → Option String
reason_of none = none
reason_of (some context) = context.signal

-- The reason with which the signal of a run's context is aborted, if it is.
unfoldable pub aborted : CancellationRegistry → String → Option String
aborted registry run_id = elim (get run_id registry.contexts) [
  | none ↦ none
  | some i ↦ reason_of (load registry.store i)
]

-- The listener of the `abort` event: the agent is stopped and the clients are told.
unfoldable pub on_abort : Moment → String → ℕ → String → RunExecutionService → RunExecutionService
on_abort m run_id max_duration_ms reason s =
    if reason == "timeout"
    then emit_terminal_once m run_id run_timed_out (run_timed_out_payload m.now max_duration_ms) s
    else emit_terminal_once m run_id run_cancelled (run_cancelled_payload m.now reason) s

-- The listener runs once, when the signal goes from not aborted to aborted.
unfoldable pub notify : Moment → String → Option String → RunExecutionService → RunExecutionService
unfolding aborted on_abort
notify m run_id (some reason) s = s
notify m run_id none s = elim (get run_id s.listeners) [
  | none ↦ s
  | some max_duration_ms ↦ elim (aborted s.run_manager.cancellation_registry run_id) [
    | none ↦ s
    | some reason ↦
        on_abort m run_id max_duration_ms reason
          (record s { listeners = delete run_id s.listeners })
  ]
]

-- `cancelRun`. The listener runs inside `runManager.cancelRun`, and neither reads what the other
-- writes.
unfoldable pub cancel_run : String → OwnerPrincipal → Option String → Moment → Call Run
unfolding get_run notify
cancel_run run_id owner reason m = do
  get_run run_id owner
  before ← gets (λ s. aborted s.run_manager.cancellation_registry run_id)
  run ← manage (Manager.cancel_run run_id reason m.now)
  does (notify m run_id before)
  if state_eq run.state cancelled
      then (do
        does (
            emit_terminal_once m run.id run_cancelled
              (run_cancelled_payload (or_else run.completed_at m.now) (or_else reason "cancelled")))
        pure run)
      else pure run

-- The event loop runs a timer of the run manager.
unfoldable pub run_timer : ℕ → Moment → Call Unit
unfolding notify
run_timer timer m = do
  fired ← gets (λ s. (Timeout.fire s.run_manager.timeout_manager timer m.now).1)
  let run_id = or_else fired ""
  before ← gets (λ s. aborted s.run_manager.cancellation_registry run_id)
  manage (Manager.run_timer timer m.now)
  does (notify m run_id before)

unfoldable pub compute_duration_ms : Run → ℤ
unfolding minus
compute_duration_ms run = elim run.started_at [
  | none ↦ pos 0
  | some started ↦ elim run.completed_at [ none ↦ pos 0 | some done ↦ minus done started ]
]

pub record Health : Type 0 where
  pub healthy : Bool
  pub provider : String
  pub error : String

abbrev pub settle : {A : Type 0} → Result String A → Call A
settle (ok a) s = (ok a, s)
settle (err e) s = (err (thrown e), s)

-- `executeRun` up to the loading of the pack: the health of the provider, the workspace, the start.
unfoldable pub start_execution : Run → Health → Result String String → Moment → Call Unit
start_execution run health workspace m = do
  if not health.healthy
      then throw (
          service_unavailable
            ("Provider " <> health.provider <> " is not available: " <> health.error))
      else pure tt
  workspace_id ← settle workspace
  started ← manage (Manager.start_run run.id m.now)
  does (
      publish m run.id run_started
        (run_started_payload (or_else started.started_at m.now) workspace_id))

-- `executeRun` from there to the call of `agent.prompt`: the pack and its prompt, the tools, the
-- model and the agent, which may fail, and the listener. A signal that is aborted already does not
-- call a new listener.
unfoldable pub attach_agent : Run → Result String Unit → Call Unit
attach_agent run prepared = do
  settle prepared
  does (λ s. record s { listeners = set run.id run.max_duration_ms s.listeners })

unfoldable pub agent_event : String → AgentEvent EventPayload → Moment → Call Unit
agent_event run_id event m s = (
  ok tt,
  record s { sse_service = (broadcast_agent_event s.sse_service run_id event m.condition m.now).0 },
)

abbrev pub is_stopped : RunState → Bool
is_stopped state = state_eq state cancelled || state_eq state timed_out

-- `closeRun` and `terminalEvents.delete`.
abbrev pub close_execution : String → Call Unit
close_execution run_id = do does (close_streams run_id); does (forget_terminal run_id)

-- `executeRun` after `agent.prompt` has returned.
unfoldable pub complete_execution : Run → List AgentMessage → Moment → Call Unit
complete_execution run messages m = do
  found ← manage (Manager.get_run run.id)
  latest ←
      or_throw found (internal_server_error ("Run '" <> run.id <> "' disappeared during execution"))
  if is_stopped latest.state then close_execution run.id else (do
    done ← manage (Manager.complete_run run.id (some messages) m.now)
    does (
        emit_terminal_once m run.id run_completed
          (run_completed_payload (or_else done.completed_at m.now) (compute_duration_ms done)))
    close_execution run.id)

module _ (to_lower_case : String → String) (message_of : ExecutionError → String) where
  unfoldable pub fail_latest : Run → Option Run → ExecutionError → Moment → Call Unit
  fail_latest run none error m = pure tt
  fail_latest run (some latest) error m = if is_stopped latest.state then pure tt else (do
    failed_run ←
        manage
          (Manager.fail_run run.id (enhance_provider_error to_lower_case (message_of error)) m.now)
    does (
        emit_terminal_once m run.id run_failed (
          run_failed_payload (or_else failed_run.completed_at m.now)
            (or_else failed_run.error "Unknown execution failure")))
    does (close_streams run.id))

  -- The `catch` of `executeRun`.
  unfoldable pub fail_execution : Run → ExecutionError → Moment → Call Unit
  unfolding fail_latest
  fail_execution run error m = do
    latest ← manage (Manager.get_run run.id)
    fail_latest run latest error m
    does (forget_terminal run.id)

  -- `try` and `catch`
  abbrev pub caught : Run → Moment → Result ExecutionError Unit → Call Unit
  caught run m (ok done) = pure done
  caught run m (err error) = fail_execution run error m

  unfoldable pub try_execution : Run → Moment → Call Unit → Call Unit
  try_execution run m attempt s = caught run m (attempt s).0 (attempt s).1
