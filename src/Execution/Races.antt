-- ===== src/Execution/Races.antt =====
-- services/orchestrator/src/runtime/run-execution.service.ts: calls that come between the parts of an
-- execution.
use minerva.Base.{
  String, ◌≡◌, ◌≤◌, refl, sym, ap, subst, ◌∙◌, true, false, Option, none, some, List, arith,
  includes, or_else, inl, inr, ◌⊎◌, Option-cases, Bool-cases, ◌==◌,
}
use minerva.Dict.{get, set}
use minerva.Exec.{ok}
use minerva.Owner.{OwnerPrincipal, same_owner_principal}
use minerva.Run.{Run, AgentMessage, cancelled, timed_out, is_terminal_state, state_eq}
use minerva.RunManager.Operations as Manager
use minerva.RunManager.Invariant.{Inv}
use minerva.RunManager.Effects.{cancel_finished, error_only}
use minerva.Timeout.{TimeoutHandle}
use minerva.Timeout
use minerva.Timeout.Firing.{fire_on_time}
use minerva.RunManager.Expiry.{run_timer_ok, run_timer_expires}
use minerva.RunManager.Operations.{transition_updates, timeout_message}
use minerva.Sse.{EventType, run_cancelled, run_timed_out}
use minerva.Sse.Service.{close_run}
use minerva.Execution.{
  ExecutionError, RunExecutionService, Moment, publish, close_streams, forget_terminal,
  run_cancelled_payload, emit_terminal_once, EventPayload,
}
use minerva.Execution.Operations.{
  get_run, cancel_run, run_timer, attach_agent, complete_execution, fail_execution, fail_latest,
  is_stopped, aborted, notify, on_abort,
}
use minerva.Execution.Outcome.{manage_eq, manage_ok, close_run-closed, get_run_lem}
use minerva.Execution.Requests.{get_run_found}
use minerva.Execution.Notices.{Tells, notified}

-- Telling the clients does not change the run manager.
emit-manager :
    (m : Moment) (r : String) (type : EventType) (payload : EventPayload) (s : RunExecutionService)
    → (emit_terminal_once m r type payload s).run_manager ≡ s.run_manager
unfolding emit_terminal_once publish
emit-manager m r type payload s = elim (Bool-cases (includes r s.terminal_events)) [
  | inl e ↦ rw e refl
  | inr e ↦ rw e refl
]

notify-manager :
    (m : Moment) (r : String) (before : Option String) (s : RunExecutionService)
    → (notify m r before s).run_manager ≡ s.run_manager
unfolding notify on_abort
notify-manager m r (some reason) s = refl
notify-manager m r none s = elim (Option-cases (get r s.listeners)) [
  | inl e ↦ rw (e, notify) refl
  | inr (d, e) ↦ elim (Option-cases (aborted s.run_manager.cancellation_registry r)) [
    | inl f ↦ rw (e, f, notify) refl
    | inr (why, f) ↦ elim (Bool-cases (why == "timeout")) [
      | inl g ↦ rw (e, f, notify) (rw g (emit-manager m r run_timed_out _ _))
      | inr g ↦ rw (e, f, notify) (rw g (emit-manager m r run_cancelled _ _))
    ]
  ]
]

-- In a manager that satisfies the invariant, when the owner cancels a run that is cancelled already
-- and whose end the service has forgotten, the call gives the run and succeeds, one event
-- `run_cancelled` of the run is published, and the run manager does not change.
pub cancel_again :
    (s : RunExecutionService) (r : String) (run : Run) (owner : OwnerPrincipal)
    (reason : Option String) (m : Moment)
    → Inv s.run_manager
    → get r s.run_manager.repo ≡ some run
    → same_owner_principal run.owner owner ≡ true
    → run.state ≡ cancelled
    → includes r s.terminal_events ≡ false
    → let outcome = cancel_run r owner reason m s in
      (outcome.0 ≡ ok run)
      × Tells s.published outcome.1.published r run_cancelled
      × (outcome.1.run_manager ≡ s.run_manager)
unfolding cancel_run
cancel_again s r run owner reason m v e own q new =
    let here : get_run r owner s ≡ (ok run, s) = get_run_found s r owner run e ∙ rw own refl in
    let done : Manager.cancel_run r reason m.now s.run_manager ≡ (ok run, s.run_manager) =
      cancel_finished s.run_manager r run reason m.now e
        (rw q (unfold is_terminal_state in refl)) in
    let stopped : state_eq run.state cancelled ≡ true = rw q (unfold state_eq in refl) in
    let payload =
      run_cancelled_payload (or_else run.completed_at m.now) (or_else reason "cancelled") in
    let before = aborted s.run_manager.cancellation_registry r in
    let told = notified r m s before "" payload new (λ f. inl f) in
    rw here (
      rw (manage_eq (Manager.cancel_run r reason m.now) s _ _ done) (
        rw stopped (
          refl,
          subst
              (λ k.
                let after =
                  (emit_terminal_once m k run_cancelled payload (notify m r before s)).published in
                Tells s.published after r run_cancelled)
              (sym (v.filed r run e).0) (elim told [ inl t ↦ t | inr (t, f) ↦ cc ]),
          emit-manager m run.id run_cancelled payload (notify m r before s)
              ∙ notify-manager m r before s,
        )))

-- Where an execution fails whose run was cancelled or has timed out, the clients are told nothing and
-- their streams stay open.
stopped_keeps_streams :
    (to_lower_case : String → String) (message_of : ExecutionError → String)
    (s : RunExecutionService) (run stored : Run) (error : ExecutionError) (m : Moment)
    → get run.id s.run_manager.repo ≡ some stored
    → (stored.state ≡ cancelled) ⊎ (stored.state ≡ timed_out)
    → let outcome = fail_execution to_lower_case message_of run error m s in
      (outcome.0 ≡ ok tt)
      × (outcome.1.sse_service ≡ s.sse_service)
      × (outcome.1.published ≡ s.published)
      × (outcome.1.run_manager ≡ s.run_manager)
unfolding fail_execution fail_latest forget_terminal
stopped_keeps_streams to_lower_case message_of s run stored error m e q =
    let stopped : is_stopped stored.state ≡ true = unfold state_eq in ground arith in
    rw (get_run_lem run.id s, e) (rw stopped (refl, refl, refl, refl))

unheard_stays :
    (s : RunExecutionService) (r : String) (m : Moment) (before : Option String)
    (s1 : RunExecutionService)
    → get r s1.listeners ≡ none
    → notify m r before s1 ≡ s1
unfolding notify
unheard_stays s r m (some reason) s1 h = refl
unheard_stays s r m none s1 h = rw (h, notify) refl

-- A timer that runs before the agent is there: no listener, so no one is told.
timer_unheard :
    (s : RunExecutionService) (r : String) (h : TimeoutHandle) (m : Moment)
    → Inv s.run_manager
    → get r s.run_manager.timeout_manager.timeouts ≡ some h
    → h.timeout_at ≤ m.now
    → get r s.listeners ≡ none
    → run_timer h.timer m s
      ≡ (ok tt, record s { run_manager = (Manager.run_timer h.timer m.now s.run_manager).1 })
unfolding run_timer notify
timer_unheard s r h m v e due unheard =
    let fired : (Timeout.fire s.run_manager.timeout_manager h.timer m.now).1 ≡ some r =
      (fire_on_time s.run_manager.timeout_manager r h m.now v.timers_ok e).0 ∙ ground arith in
    let returned = run_timer_ok s.run_manager h.timer m.now v in
    rw fired (
      rw (manage_ok (Manager.run_timer h.timer m.now) s tt returned) (
        ap (λ t. (ok tt, t))
          (unheard_stays s r m (aborted s.run_manager.cancellation_registry r)
            (record s { run_manager = (Manager.run_timer h.timer m.now s.run_manager).1 })
            unheard)))

complete_stopped :
    (s : RunExecutionService) (run stored : Run) (messages : List AgentMessage) (m : Moment)
    → get run.id s.run_manager.repo ≡ some stored
    → is_stopped stored.state ≡ true
    → complete_execution run messages m s ≡ (ok tt, forget_terminal run.id (close_streams run.id s))
unfolding complete_execution
complete_stopped s run stored messages m e stopped = rw (get_run_lem run.id s, e) (rw stopped refl)

-- In a manager that satisfies the invariant, if the timer of a run's timeout runs in time, but before
-- the agent of its execution is attached, then the run ends as timed out and no event is published,
-- whether the agent's prompt then resolves or rejects. The execution returns without an error in both
-- cases; where the prompt resolves it closes the run's streams, and where it rejects it leaves the
-- streams, the buffers and the counters as they are.
pub silent_timeout :
    (to_lower_case : String → String) (message_of : ExecutionError → String)
    (s : RunExecutionService) (h : TimeoutHandle) (run : Run) (m later : Moment)
    (messages : List AgentMessage) (error : ExecutionError)
    → Inv s.run_manager
    → get run.id s.run_manager.timeout_manager.timeouts ≡ some h
    → get run.id s.run_manager.repo ≡ some run
    → h.timeout_at ≤ m.now
    → get run.id s.listeners ≡ none
    → let s1 = (run_timer h.timer m s).1 in
      let s2 = (attach_agent run (ok tt) s1).1 in
      let resolved = complete_execution run messages later s2 in
      let rejected = fail_execution to_lower_case message_of run error later s2 in
      ((run' : Run) × (get run.id s2.run_manager.repo ≡ some run') × (run'.state ≡ timed_out))
      × ((resolved.0 ≡ ok tt)
          × (resolved.1.run_manager ≡ s2.run_manager)
          × (get run.id resolved.1.sse_service.stream_controller.streams ≡ none)
          × (resolved.1.published ≡ s.published))
      × ((rejected.0 ≡ ok tt)
          × (rejected.1.run_manager ≡ s2.run_manager)
          × (rejected.1.sse_service ≡ s.sse_service)
          × (rejected.1.published ≡ s.published))
unfolding attach_agent forget_terminal close_streams close_run
silent_timeout to_lower_case message_of s h run m later messages error v e f due unheard =
    let manager = (Manager.run_timer h.timer m.now s.run_manager).1 in
    let s2 = record s {
      run_manager = manager;
      listeners = set run.id run.max_duration_ms s.listeners;
    } in
    let meta = error_only (timeout_message run.max_duration_ms) in
    let run' = transition_updates timed_out meta m.now run in
    let expired : get run.id manager.repo ≡ some run' =
      run_timer_expires s.run_manager run.id h run m.now v e f ∙ ground arith in
    let timed : run'.state ≡ timed_out = unfold transition_updates in refl in
    let stopped : is_stopped run'.state ≡ true = rw timed (unfold state_eq in refl) in
    let (returned, silent, told, kept) =
      stopped_keeps_streams to_lower_case message_of s2 run run' error later expired (inr timed) in
    rw (timer_unheard s run.id h m v e due unheard) (
      (run', expired, timed),
      rw (complete_stopped s2 run run' messages later expired stopped)
          (refl, refl, close_run-closed s.sse_service.stream_controller run.id, refl),
      (returned, kept, silent, told),
    )
