-- ===== src/Execution/Notices.antt =====
-- services/orchestrator/src/runtime/run-execution.service.ts: what a cancellation tells the clients.
use minerva.Base.{
  ℕ, String, ◌≡◌, refl, sym, subst, ◌∙◌, true, false, Option, none, some, List, [], ◌∷◌, ◌++◌, ◌==◌,
  eq_refl, arith, includes, includes-append, or_else, inl, inr, ◌⊎◌, Bool-cases, Option-cases,
  eq_of_test,
}
use minerva.Dict.{get, delete}
use minerva.Exec.{ok}
use minerva.Owner.{OwnerPrincipal, same_owner_principal}
use minerva.Run.{Run, cancelled, is_terminal_state, state_eq}
use minerva.Cancellation.{CancellationRegistry, cancel, cancel_context, load}
use minerva.Cancellation.Signals.{load-modify}
use minerva.RunManager.{RunManager}
use minerva.RunManager.Operations as Manager
use minerva.RunManager.Operations.{transition_updates}
use minerva.RunManager.Invariant.{Inv}
use minerva.RunManager.Transition.{transition_valid, moved}
use minerva.RunManager.Effects.{withdrawn, error_only, cancel_found}
use minerva.RunManager.Steps.{nonterminal_can_cancel}
use minerva.Sse.{EventType, run_cancelled, run_timed_out}
use minerva.Execution.{
  RunExecutionService, Moment, publish, EventPayload, run_cancelled_payload, emit_terminal_once,
  Published,
}
use minerva.Execution.Operations.{get_run, cancel_run, aborted, notify, on_abort}
use minerva.Execution.Outcome.{manage_eq}
use minerva.Execution.Requests.{get_run_found}

-- A signal that was not aborted is aborted by a cancellation with its reason, or not at all.
aborted-cancel :
    (g : CancellationRegistry) (r why : String)
    → aborted g r ≡ none
    → (aborted (cancel g r (some why)).0 r ≡ none)
      ⊎ (aborted (cancel g r (some why)).0 r ≡ some why)
unfolding aborted cancel
aborted-cancel g r why h = elim (Option-cases (get r g.contexts)) [
  | inl e ↦ inl (ground arith)
  | inr (i, e) ↦ elim (Option-cases (load g.store i)) [
    | inl f ↦ inl (ground (arith, e, f, load-modify (cancel_context (some why)) g.store i i))
    | inr (c, f) ↦ elim (Bool-cases c.is_cancelled) [
      | inl k ↦
          inl (ground (arith, e, f, h, k, load-modify (cancel_context (some why)) g.store i i))
      | inr k ↦
          inr (ground (arith, e, f, h, k, load-modify (cancel_context (some why)) g.store i i))
    ]
  ]
]

cancel_state :
    (m : RunManager) (r : String) (run : Run) (reason : Option String) (now : ℕ)
    → Inv m
    → get r m.repo ≡ some run
    → is_terminal_state run.state ≡ false
    → let meta = error_only (or_else reason "cancelled") in
      Manager.cancel_run r reason now m ≡ (
        ok (transition_updates cancelled meta now run),
        moved (withdrawn m r run (or_else reason "user_cancelled")) r run cancelled meta now,
      )
cancel_state m r run reason now v e t =
    cancel_found m r run reason now e t
    ∙ transition_valid (withdrawn m r run (or_else reason "user_cancelled")) r cancelled
        (error_only (or_else reason "cancelled")) now run e (nonterminal_can_cancel m v run.state t)

-- One event of this run and type is published.
pub record Tells (before after : List Published) (r : String) (type : EventType) : Type 0 where
  pub payload : EventPayload
  pub published : after ≡ before ++ record { run_id = r; type = type; payload = payload } ∷ []

module _ (s : RunExecutionService) (r : String) (m : Moment)
    (new : includes r s.terminal_events ≡ false) where
  emit-Tells :
      (type : EventType) (payload : EventPayload)
      → Tells s.published (emit_terminal_once m r type payload s).published r type
  unfolding emit_terminal_once publish
  emit-Tells type payload = rw new (record { payload = payload; published = refl })

  emit_again :
      (type type' : EventType) (payload payload' : EventPayload)
      → emit_terminal_once m r type' payload' (emit_terminal_once m r type payload s)
        ≡ emit_terminal_once m r type payload s
  unfolding emit_terminal_once publish
  emit_again type type' payload payload' =
      rw new (ground (arith, includes-append r s.terminal_events (r ∷ []), eq_refl r))

-- After a call of the run manager that may have aborted the signal, and the listener's part.
module _ (r : String) (m : Moment) where
  -- What is told where the listener and the caller both tell of the end.
  pub notified :
      (s1 : RunExecutionService) (before : Option String) (why : String) (payload : EventPayload)
      → includes r s1.terminal_events ≡ false
      → (before ≡ none
          → (aborted s1.run_manager.cancellation_registry r ≡ none)
            ⊎ (aborted s1.run_manager.cancellation_registry r ≡ some why))
      → let s' = emit_terminal_once m r run_cancelled payload (notify m r before s1) in
        Tells s1.published s'.published r run_cancelled
        ⊎ (Tells s1.published s'.published r run_timed_out × (why ≡ "timeout"))
  unfolding notify on_abort
  notified s1 (some reason) why payload new h = inl (emit-Tells s1 r m new run_cancelled payload)
  notified s1 none why payload new h = elim (Option-cases (get r s1.listeners)) [
    | inl e ↦ rw (e, notify) (inl (emit-Tells s1 r m new run_cancelled payload))
    | inr (d, e) ↦ elim (h refl) [
      | inl f ↦ rw (e, f, notify) (inl (emit-Tells s1 r m new run_cancelled payload))
      | inr f ↦
          let s2 = record s1 { listeners = delete r s1.listeners } in
          elim (Bool-cases (why == "timeout")) [
            | inl g ↦
                rw (e, f, notify)
                  (rw g (
                    rw (emit_again s2 r m new run_timed_out run_cancelled _ payload)
                      (inr (emit-Tells s2 r m new run_timed_out _, eq_of_test why "timeout" g))))
            | inr g ↦
                rw (e, f, notify)
                  (rw g (
                    rw (emit_again s2 r m new run_cancelled run_cancelled _ payload)
                      (inl (emit-Tells s2 r m new run_cancelled _))))
          ]
    ]
  ]

-- In a manager that satisfies the invariant, when the owner cancels a run that has not ended and whose
-- end has not been told, exactly one event is published, and it is of this run: `run_cancelled`, or,
-- where the given reason is the text "timeout", possibly `run_timed_out`.
pub cancel_tells :
    (s : RunExecutionService) (r : String) (run : Run) (owner : OwnerPrincipal)
    (reason : Option String) (m : Moment)
    → Inv s.run_manager
    → get r s.run_manager.repo ≡ some run
    → same_owner_principal run.owner owner ≡ true
    → is_terminal_state run.state ≡ false
    → includes r s.terminal_events ≡ false
    → let s' = (cancel_run r owner reason m s).1 in
      Tells s.published s'.published r run_cancelled
      ⊎ (Tells s.published s'.published r run_timed_out
          × (or_else reason "user_cancelled" ≡ "timeout"))
unfolding cancel_run transition_updates state_eq
cancel_tells s r run owner reason m v e own live new =
    let here : get_run r owner s ≡ (ok run, s) = get_run_found s r owner run e ∙ rw own refl in
    let done = cancel_state s.run_manager r run reason m.now v e live in
    let why = or_else reason "user_cancelled" in
    let manager =
      moved (withdrawn s.run_manager r run why) r run cancelled
        (error_only (or_else reason "cancelled")) m.now in
    let s1 = record s { run_manager = manager } in
    let payload = run_cancelled_payload m.now (or_else reason "cancelled") in
    let before = aborted s.run_manager.cancellation_registry r in
    let told =
      notified r m s1 before why payload new
        (λ f. aborted-cancel s.run_manager.cancellation_registry r why f) in
    rw here (
      rw (manage_eq (Manager.cancel_run r reason m.now) s _ _ done) (
        subst
          (λ k.
            let after =
              (emit_terminal_once m k run_cancelled payload (notify m r before s1)).published in
            Tells s.published after r run_cancelled
            ⊎ (Tells s.published after r run_timed_out × (why ≡ "timeout")))
          (sym (v.filed r run e).0) told))
