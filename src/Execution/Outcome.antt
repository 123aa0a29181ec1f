-- ===== src/Execution/Outcome.antt =====
-- services/orchestrator/src/runtime/run-execution.service.ts: how an execution ends that no other call
-- comes between.
use minerva.Base.{
  String, ◌≡◌, refl, sym, subst, true, false, none, some, List, [], ◌∷◌, eq_refl, arith, includes,
  inl, inr, Option-cases,
}
use minerva.Dict.{get, get-delete}
use minerva.Exec.{ok}
use minerva.Run.{
  Run, AgentMessage, running, completed, failed, is_terminal_state, is_active_state,
  is_valid_state_transition, state_eq,
}
use minerva.Lease.{Lease}
use minerva.RunManager.{RunManager, Action}
use minerva.RunManager.Operations as Manager
use minerva.RunManager.Operations.{transition_updates, Metadata, no_metadata, finish_run}
use minerva.RunManager.Endings.{Holds, Ended, finish_held}
use minerva.Sse.{EventType, run_completed, run_failed}
use minerva.Sse.Streams.{StreamController}
use minerva.Sse.Streams
use minerva.Sse.Service.{close_run}
use minerva.Execution.{
  EventPayload, ExecutionError, RunExecutionService, Moment, manage, publish, emit_terminal_once,
  without, forget_terminal, close_streams,
}
use minerva.Execution.Operations.{fail_execution, fail_latest, complete_execution, is_stopped}
use minerva.Execution.Errors.{enhance_provider_error}

emit-manager :
    (m : Moment) (r : String) (type : EventType) (payload : EventPayload) (s : RunExecutionService)
    → (emit_terminal_once m r type payload s).run_manager ≡ s.run_manager
unfolding emit_terminal_once publish
emit-manager m r type payload s = ground arith

pub includes-without : (a : String) (xs : List String) → includes a (without a xs) ≡ false
includes-without a [] = refl
includes-without a (x ∷ xs) = ground (arith, includes-without a xs)

-- What an execution leaves: the run has ended, and nothing of the service speaks of it.
pub record Finished (s s' : RunExecutionService) (r u : String) : Type 0 where
  pub run' : Run
  pub ended : Ended s.run_manager s'.run_manager r u run'
  pub forgotten : includes r s'.terminal_events ≡ false
  pub closed : get r s'.sse_service.stream_controller.streams ≡ none
  pub same_users : s'.processing_users ≡ s.processing_users

emit-users :
    (m : Moment) (r : String) (type : EventType) (payload : EventPayload) (s : RunExecutionService)
    → (emit_terminal_once m r type payload s).processing_users ≡ s.processing_users
unfolding emit_terminal_once publish
emit-users m r type payload s = ground arith

pub close_run-closed :
    (c : StreamController) (r : String)
    → get r (Streams.close_run {J = EventPayload} c r).0.streams ≡ none
unfolding Streams.close_run
close_run-closed c r = elim (Option-cases (get r c.streams)) [
  | inl e ↦ rw (e, Streams.close_run) e
  | inr (i, e) ↦ rw (e, Streams.close_run) (ground (arith, get-delete r r c.streams, eq_refl r))
]

-- The end of an execution: the clients are told and their streams closed, and the service forgets.
wound_up :
    (s : RunExecutionService) (manager : RunManager) (r u : String) (run' : Run) (m : Moment)
    (type : EventType) (payload : EventPayload)
    → Ended s.run_manager manager r u run'
    → Finished s
        (forget_terminal r (
          close_streams r
            (emit_terminal_once m r type payload (record s { run_manager = manager }))))
        r
        u
unfolding forget_terminal close_streams close_run
wound_up s manager r u run' m type payload ended =
    let told = emit_terminal_once m r type payload (record s { run_manager = manager }) in
    record {
      run' = run';
      ended =
          subst (λ t. Ended s.run_manager t r u run')
            (sym (emit-manager m r type payload (record s { run_manager = manager }))) ended;
      forgotten = includes-without r told.terminal_events;
      closed = close_run-closed told.sse_service.stream_controller r;
      same_users = emit-users m r type payload (record s { run_manager = manager });
    }

module _ {A : Type 0} (action : Action A) (s : RunExecutionService) where
  pub manage_ok :
      (a : A)
      → (action s.run_manager).0 ≡ ok a
      → manage action s ≡ (ok a, record s { run_manager = (action s.run_manager).1 })
  unfolding manage
  manage_ok a e = rw e refl

pub manage_eq :
    {A : Type 0} (action : Action A) (s : RunExecutionService) (a : A) (manager : RunManager)
    → action s.run_manager ≡ (ok a, manager)
    → manage action s ≡ (ok a, record s { run_manager = manager })
unfolding manage
manage_eq action s a manager e = rw e refl

pub get_run_lem :
    (r : String) (s : RunExecutionService)
    → manage (Manager.get_run r) s ≡ (ok (get r s.run_manager.repo), s)
unfolding manage
get_run_lem r s = unfold Manager.get_run in refl

module _ (s : RunExecutionService) (run stored : Run) (l : Lease) (m : Moment)
    (held : Holds s.run_manager run.id stored l) where
  -- The end of `executeRun` in a state in which the run still runs.
  pub complete_lem :
      (messages : List AgentMessage)
      → stored.state ≡ running
      → ((complete_execution run messages m s).0 ≡ ok tt)
        × Finished s (complete_execution run messages m s).1 run.id stored.user_id
  unfolding complete_execution Manager.complete_run
  complete_lem messages q =
      let meta : Metadata = record { error = none; final_messages = some messages } in
      let (result, ended) =
        finish_held s.run_manager run.id stored l completed meta m.now held (λ p. cc)
          (rw q (unfold is_valid_state_transition in refl)) (unfold is_terminal_state in refl) in
      let live : is_stopped stored.state ≡ false = rw q (unfold state_eq in refl) in
      rw (get_run_lem run.id s, held.stored)
        (rw live (
          rw
            (manage_ok (finish_run run.id completed meta m.now) s
              (transition_updates completed meta m.now stored) result)
            (refl, wound_up s _ run.id stored.user_id _ m run_completed _ ended)))

  -- The `catch` of `executeRun` in a state in which the run has started or will.
  pub fail_lem :
      (to_lower_case : String → String) (message_of : ExecutionError → String)
      (error : ExecutionError)
      → is_active_state stored.state ≡ true
      → ((fail_execution to_lower_case message_of run error m s).0 ≡ ok tt)
        × Finished s (fail_execution to_lower_case message_of run error m s).1 run.id stored.user_id
  unfolding fail_execution fail_latest Manager.fail_run
  fail_lem to_lower_case message_of error q =
      let message = enhance_provider_error to_lower_case (message_of error) in
      let meta : Metadata = record { error = some message; final_messages = none } in
      let (result, ended) =
        finish_held s.run_manager run.id stored l failed meta m.now held
          (λ p. unfold is_active_state in ground arith)
          (unfold is_valid_state_transition is_active_state in ground arith)
          (unfold is_terminal_state in refl) in
      let live : is_stopped stored.state ≡ false =
        unfold is_active_state state_eq in ground arith in
      rw (get_run_lem run.id s, held.stored)
        (rw live (
          rw
            (manage_ok (finish_run run.id failed meta m.now) s
              (transition_updates failed meta m.now stored) result)
            (refl, wound_up s _ run.id stored.user_id _ m run_failed _ ended)))
