-- ===== src/Execution/Ends.antt =====
-- services/orchestrator/src/runtime/run-execution.service.ts: whatever the surroundings answer, an
-- execution ends its run and frees the user.
use minerva.Base.{
  ℕ, String, ◌≡◌, ◌==◌, refl, sym, ap, subst, ◌∙◌, Bool, true, false, List, [], ◌∷◌, arith, eq_refl,
  or_else,
}
use minerva.Dict.{Dict, get, get-set}
use minerva.Exec.{Result, ok, err, ◌>>=◌, ◌>>◌}
use minerva.Run.{Run, AgentMessage, leased, running, is_active_state}
use minerva.Lease.{Lease}
use minerva.RunManager.{RunManager}
use minerva.RunManager.Operations.{transition_updates, no_metadata}
use minerva.RunManager.Effects.{start_found, started}
use minerva.RunManager.Admission.{start-Inv}
use minerva.RunManager.Endings.{Holds}
use minerva.Sse.{run_started}
use minerva.Sse.Service.{SseService}
use minerva.Sse.Mapper.{AgentEvent}
use minerva.Execution.{
  EventPayload, ExecutionError, RunExecutionService, Moment, manage, publish, run_started_payload,
}
use minerva.Execution.Operations.{
  start_execution, attach_agent, agent_event, complete_execution, fail_execution, caught,
  try_execution, settle,
}
use minerva.Execution.Attempt.{Surroundings, agent_events, attempt, execute_run}
use minerva.Execution.Outcome.{Finished, complete_lem, fail_lem}

agent_events_lem :
    (r : String) (events : List (AgentEvent EventPayload)) (m : Moment) (s : RunExecutionService)
    → (sse : SseService EventPayload) × (agent_events r events m s
        ≡ (ok tt, record s { sse_service = sse }))
unfolding agent_events agent_event
agent_events_lem r [] m s = (s.sse_service, refl)
agent_events_lem r (event ∷ events) m s =
    let (sse, e) = agent_events_lem r events m (agent_event r event m s).1 in
    (sse, unfold agent_event in e)

start_Holds :
    (s : RunManager) (run : Run) (l : Lease) (now : ℕ)
    → Holds s run.id run l
    → run.state ≡ leased
    → Holds (started s run.id run now) run.id (transition_updates running no_metadata now run) l
unfolding transition_updates
start_Holds s run l now h q = record {
  inv = start-Inv s run.id run now h.inv h.stored q;
  stored = ground (
    arith,
    get-set run.id run.id (transition_updates running no_metadata now run) s.repo,
    eq_refl run.id,
  );
  lease_token = h.lease_token;
  named = h.named;
  lease = h.lease;
}

-- What has finished in a later state of the execution has finished.
earlier :
    (s s' t : RunExecutionService) (r u : String)
    → s'.run_manager.queue ≡ s.run_manager.queue
    → s'.run_manager.lease_manager ≡ s.run_manager.lease_manager
    → s'.processing_users ≡ s.processing_users
    → ((j : String) → (r == j) ≡ false → get j s'.run_manager.repo ≡ get j s.run_manager.repo)
    → Finished s' t r u
    → Finished s t r u
earlier s s' t r u queue leases users others f = record {
  run' = f.run';
  ended = record {
    inv = f.ended.inv;
    stored = f.ended.stored;
    terminal = f.ended.terminal;
    no_timeout = f.ended.no_timeout;
    no_lease = f.ended.no_lease;
    same_queue = f.ended.same_queue ∙ queue;
    others = λ j n. f.ended.others j n ∙ others j n;
    unused = λ x h. f.ended.unused x (ap (λ m. get x m.token_to_user) leases ∙ h);
  };
  forgotten = f.forgotten;
  closed = f.closed;
  same_users = f.same_users ∙ users;
}

module _ (to_lower_case : String → String) (message_of : ExecutionError → String) where
  abbrev pub Ends :
      RunExecutionService → Run → Result ExecutionError Unit × RunExecutionService → Type 0
  Ends s run (result, t) = (result ≡ ok tt) × Finished s t run.id run.user_id

  module _ (s : RunExecutionService) (run : Run) (l : Lease) (start finish : Moment)
      (held : Holds s.run_manager run.id run l) (q : run.state ≡ leased) where
    abbrev started_run : Run
    started_run = transition_updates running no_metadata start.now run

    begun : String → RunExecutionService
    unfolding publish
    begun workspace =
        publish start run.id run_started
          (run_started_payload (or_else started_run.started_at start.now) workspace)
          (record s { run_manager = started s.run_manager run.id run start.now })

    start_lem :
        (workspace provider error : String)
        → start_execution run
            (record { healthy = true; provider = provider; error = error })
            (ok workspace)
            start
            s
          ≡ (ok tt, begun workspace)
    unfolding start_execution begun manage
    start_lem workspace provider error =
        rw (start_found s.run_manager run.id run start.now held.stored q) refl

    failing :
        (s' : RunExecutionService) (stored : Run)
        → Holds s'.run_manager run.id stored l
        → is_active_state stored.state ≡ true
        → stored.user_id ≡ run.user_id
        → (error : ExecutionError)
        → Ends s' run (fail_execution to_lower_case message_of run error finish s')
    failing s' stored h a same error =
        let (returned, f) = fail_lem s' run stored l finish h to_lower_case message_of error a in
        (
          returned,
          subst
              (λ u.
                Finished s' (fail_execution to_lower_case message_of run error finish s').1 run.id
                  u)
              same f,
        )

    -- The parts of the execution that follow the start change neither the run manager nor the users.
    module _ (workspace : String) (listeners : Dict ℕ) (sse : SseService EventPayload) where
      later : RunExecutionService
      later = record (begun workspace) { listeners = listeners; sse_service = sse }

      later-Holds : Holds later.run_manager run.id started_run l
      unfolding later begun
      later-Holds = start_Holds s.run_manager run l start.now held q

      started_run-running : started_run.state ≡ running
      unfolding transition_updates
      started_run-running = refl

      started_others :
          (j : String)
          → (run.id == j) ≡ false
          → get j later.run_manager.repo ≡ get j s.run_manager.repo
      unfolding later begun
      started_others j n = rw get-set (rw n refl)

      later-Ends :
          (outcome : Result ExecutionError Unit × RunExecutionService)
          → Ends later run outcome
          → Ends s run outcome
      unfolding later begun
      later-Ends (result, t) (e, f) =
          (e, earlier s later t run.id run.user_id refl refl refl started_others f)

      later_fails :
          (error : ExecutionError)
          → Ends s run (fail_execution to_lower_case message_of run error finish later)
      later_fails error = later-Ends _ (
          failing later started_run later-Holds
            (rw started_run-running (unfold is_active_state in refl))
            (unfold transition_updates in refl) error)

      caught_nothing :
          (outcome : Result ExecutionError Unit × RunExecutionService)
          → outcome.0 ≡ ok tt
          → caught to_lower_case message_of run finish outcome.0 outcome.1 ≡ outcome
      caught_nothing (result, t) e = rw e refl

      later_answers :
          (answer : Result String (List AgentMessage))
          → Ends s run (
              try_execution to_lower_case message_of run finish
                (settle answer >>= λ messages. complete_execution run messages finish)
                later)
      unfolding try_execution transition_updates
      later_answers (err message) = later_fails _
      later_answers (ok messages) =
          let done =
            complete_lem later run started_run l finish later-Holds messages started_run-running in
          subst (Ends s run) (sym (caught_nothing _ done.0)) (later-Ends _ done)

    prompted :
        (workspace : String) (listeners : Dict ℕ) (events : List (AgentEvent EventPayload))
        (answer : Result String (List AgentMessage))
        → Ends s run (
            try_execution to_lower_case message_of run finish
              (do
                agent_events run.id events start
                messages ← settle answer
                complete_execution run messages finish)
              (record (begun workspace) { listeners = listeners }))
    unfolding try_execution later
    prompted workspace listeners events answer =
        let s' = record (begun workspace) { listeners = listeners } in
        let (sse, e) = agent_events_lem run.id events start s' in
        rw e (later_answers workspace listeners sse answer)

    prepared_run :
        (workspace : String) (prepared : Result String Unit)
        (events : List (AgentEvent EventPayload)) (answer : Result String (List AgentMessage))
        → Ends s run (
            try_execution to_lower_case message_of run finish
              (do
                attach_agent run prepared
                agent_events run.id events start
                messages ← settle answer
                complete_execution run messages finish)
              (begun workspace))
    unfolding try_execution attach_agent later
    prepared_run workspace (err message) events answer =
        later_fails workspace (begun workspace).listeners (begun workspace).sse_service _
    prepared_run workspace (ok _) events answer = prompted workspace _ events answer

    attempted :
        (healthy : Bool) (provider error : String) (workspace : Result String String)
        (prepared : Result String Unit) (events : List (AgentEvent EventPayload))
        (answer : Result String (List AgentMessage))
        → Ends s run (
            execute_run to_lower_case message_of run
              (record {
                health = record { healthy = healthy; provider = provider; error = error };
                workspace = workspace;
                prepared = prepared;
                events = events;
                answer = answer;
                begun = start;
                ended = finish;
              })
              s)
    unfolding execute_run attempt try_execution
    attempted false provider error workspace prepared events answer =
        unfold start_execution in failing s run held (unfold is_active_state in rw q refl) refl _
    attempted true provider error (err message) prepared events answer =
        unfold start_execution in failing s run held (unfold is_active_state in rw q refl) refl _
    attempted true provider error (ok workspace) prepared events answer =
        rw (start_lem workspace provider error) (prepared_run workspace prepared events answer)

  -- A leased run that holds the lease of its user, in a manager that satisfies the invariant: whatever
  -- the surroundings answer, `executeRun` returns without an error; the run has ended, its user has
  -- no lease and the run no timeout, its streams are closed, and the queue is as it was.
  pub execute_run_lem :
      (s : RunExecutionService) (run : Run) (l : Lease) (x : Surroundings)
      → Holds s.run_manager run.id run l
      → run.state ≡ leased
      → ((execute_run to_lower_case message_of run x s).0 ≡ ok tt)
        × Finished s (execute_run to_lower_case message_of run x s).1 run.id run.user_id
  execute_run_lem s run l x held q =
      attempted s run l x.begun x.ended held q x.health.healthy x.health.provider x.health.error
        x.workspace x.prepared x.events x.answer
