-- ===== src/Execution/Attempt.antt =====
-- services/orchestrator/src/runtime/run-execution.service.ts: `executeRun` from end to end, where no
-- other call comes between its parts, and the loop of `processUserQueue`.
use minerva.Base.{
  ℕ, zero, suc, String, Bool, true, false, Option, none, some, List, [], ◌∷◌, if◌then◌else◌,
}
use minerva.Exec.{Result, pure, ◌>>=◌, ◌>>◌}
use minerva.Run.{Run, AgentMessage}
use minerva.RunManager.Operations as Manager
use minerva.Sse.Mapper.{AgentEvent}
use minerva.Execution.{EventPayload, ExecutionError, Call, Moment, manage}
use minerva.Execution.Operations.{
  Health, start_execution, attach_agent, agent_event, complete_execution, try_execution, claim_user,
  release_user, settle,
}

-- What the code that `executeRun` calls answers, and the moments at which the run starts and ends.
pub record Surroundings : Type 0 where
  pub health : Health
  pub workspace : Result String String
  pub prepared : Result String Unit
  pub events : List (AgentEvent EventPayload)
  pub answer : Result String (List AgentMessage)
  pub begun : Moment
  pub ended : Moment

unfoldable pub agent_events : String → List (AgentEvent EventPayload) → Moment → Call Unit
unfolding agent_event
agent_events run_id [] m = pure tt
agent_events run_id (event ∷ events) m = agent_event run_id event m >> agent_events run_id events m

-- The `try` block.
unfoldable pub attempt : Run → Surroundings → Call Unit
unfolding start_execution attach_agent agent_events complete_execution
attempt run x = do
  start_execution run x.health x.workspace x.begun
  attach_agent run x.prepared
  agent_events run.id x.events x.begun
  messages ← settle x.answer
  complete_execution run messages x.ended

module _ (to_lower_case : String → String) (message_of : ExecutionError → String) where
  unfoldable pub execute_run : Run → Surroundings → Call Unit
  unfolding try_execution attempt
  execute_run run x = try_execution to_lower_case message_of run x.ended (attempt run x)

  module _ (token : ℕ → String) (clock : ℕ → ℕ) (surroundings : Run → Surroundings) where
    -- One round of the loop, once the next run is known.
    unfoldable pub round : Call Bool → Option Run → Call Bool
    unfolding execute_run
    round more none = pure true
    round more (some run) = execute_run run (surroundings run) >> more

    -- The `for` loop, for at most `fuel` rounds: `false` if it has not come to its `break`. The
    -- round with `fuel` rounds left draws the token and reads the clock of that number.
    unfoldable pub rounds : ℕ → String → Call Bool
    unfolding round
    rounds zero user_id = pure false
    rounds (suc fuel) user_id = do
      next ← manage (Manager.acquire_next_run user_id (token fuel) (clock fuel))
      round (rounds fuel user_id) next

    -- `try` and `finally`: the loop's result or error, and the user released.
    unfoldable pub process_user_queue : ℕ → String → Call Bool
    unfolding rounds
    process_user_queue fuel user_id = do
      claimed ← claim_user user_id
      if claimed
          then (λ s.
              let (result, s') = rounds fuel user_id s in (result, (release_user user_id s').1))
          else pure true
