-- ===== src/RunManager/Expiry.antt =====
-- services/run-manager.ts: a timer of the event loop runs `timeoutRun`.
use minerva.Base.{
  ℕ, String, ◌≡◌, refl, Option, none, some, if◌then◌else◌, arith, leb, inl, inr, Bool-cases,
  eq_refl,
}
use minerva.Dict.{get, delete, get-set, get-delete}
use minerva.Exec.{ok}
use minerva.Run.{Run, running, timed_out, is_valid_state_transition}
use minerva.Timeout.{TimeoutHandle, Timer, TimeoutManager, find_timer, clear_timer, fire}
use minerva.Timeout.Timers.{timer_of}
use minerva.Timeout.Firing.{fired-IsLinked, fire_cases, fire_due, fire_early}
use minerva.RunManager.{RunManager, repo_get}
use minerva.RunManager.Operations.{
  transition_updates, timeout_run, time_out, run_timer, timeout_message,
}
use minerva.RunManager.Invariant.{Inv, IsRunning}
use minerva.RunManager.Transition.{moved}
use minerva.RunManager.Effects.{error_only, expired, expire_running}
use minerva.RunManager.Preservation.{expire-Inv}
use minerva.RunManager.Events.{Follows-set}
use minerva.RunManager.Steps.{IsGood, IsGood-refl, transition-Evolves}

-- The manager whose timer has just fired.
abbrev fired_state : RunManager → ℕ → Timer → RunManager
fired_state s i t = record s {
  timeout_manager = record s.timeout_manager {
    pending = clear_timer i s.timeout_manager.pending;
    timeouts = delete t.run_id s.timeout_manager.timeouts;
  };
}

fired_state-Inv :
    (s : RunManager) (i : ℕ) (t : Timer)
    → Inv s
    → find_timer i s.timeout_manager.pending ≡ some t
    → Inv (fired_state s i t)
fired_state-Inv s i t v e = record {
  queue_ok = v.queue_ok;
  leases_ok = v.leases_ok;
  timers_ok = fired-IsLinked s.timeout_manager i t v.timers_ok e;
  filed = v.filed;
  enqueued = v.enqueued;
  waits = v.waits;
  scheduled =
      λ j h p. ground (arith, p, get-delete t.run_id j s.timeout_manager.timeouts, v.scheduled j h);
}

running_run :
    (s : RunManager) (r : String) (o : Option Run)
    → get r s.repo ≡ o
    → IsRunning o
    → (run : Run) × (get r s.repo ≡ some run) × (run.state ≡ running)
running_run s r none e w = absurd w
running_run s r (some run) e w = (run, e, w)

-- The run of a pending timer is running.
pub timer_run :
    (s : RunManager) (i : ℕ) (t : Timer)
    → Inv s
    → find_timer i s.timeout_manager.pending ≡ some t
    → (run : Run) × (get t.run_id s.repo ≡ some run) × (run.state ≡ running)
timer_run s i t v e =
    let (h, f, _) = v.timers_ok.entered i t e in
    running_run s t.run_id (get t.run_id s.repo) refl (v.scheduled t.run_id h f)

timeout_lem :
    (s : RunManager) (r : String) (run : Run) (now : ℕ)
    → get r s.repo ≡ some run
    → run.state ≡ running
    → timeout_run r now s ≡ (
      ok tt,
      moved
          (expired s r run)
          r
          run
          timed_out
          (error_only (timeout_message run.max_duration_ms))
          now,
    )
unfolding timeout_run repo_get
timeout_lem s r run now e l = rw e (expire_running s r run now e l)

-- What is claimed of a fired timer.
abbrev FiresWell : RunManager → ℕ → TimeoutManager × Option String → Type 0
FiresWell s now p =
    let out = time_out p.1 now (record s { timeout_manager = p.0 }) in
    (out.0 ≡ ok tt) × IsGood s out.1

fires_well : (s : RunManager) (i now : ℕ) → Inv s → FiresWell s now (fire s.timeout_manager i now)
unfolding time_out
fires_well s i now v =
    fire_cases (FiresWell s now) s.timeout_manager i now (refl, IsGood-refl s v)
      λ t e _.
        let (run, f, l) = timer_run s i t v e in
        rw (timeout_lem (fired_state s i t) t.run_id run now f l) (
          refl,
          record {
            inv =
                expire-Inv (fired_state s i t) t.run_id run
                  (error_only (timeout_message run.max_duration_ms)) now (fired_state-Inv s i t v e)
                  f l;
            follows = Follows-set s.repo t.run_id run _ f (
                transition-Evolves run timed_out (error_only (timeout_message run.max_duration_ms))
                  now (rw l (unfold is_valid_state_transition in refl)));
          },
        )

-- In a manager that satisfies the invariant, the callback of a timer never throws, whichever timer runs and whenever.
pub run_timer_ok : (s : RunManager) (i now : ℕ) → Inv s → (run_timer i now s).0 ≡ ok tt
unfolding run_timer
run_timer_ok s i now v = (fires_well s i now v).0

pub run_timer-IsGood : (s : RunManager) (i now : ℕ) → Inv s → IsGood s (run_timer i now s).1
unfolding run_timer
run_timer-IsGood s i now v = (fires_well s i now v).1

pub run_timer_expires :
    (s : RunManager) (r : String) (h : TimeoutHandle) (run : Run) (now : ℕ)
    → Inv s
    → get r s.timeout_manager.timeouts ≡ some h
    → get r s.repo ≡ some run
    → get r (run_timer h.timer now s).1.repo
      ≡ some (
          if leb h.timeout_at now
          then transition_updates timed_out
              (error_only (timeout_message run.max_duration_ms))
              now
              run
          else run)
unfolding run_timer time_out
run_timer_expires s r h run now v e f = elim (Bool-cases (leb h.timeout_at now)) [
  | inl due ↦
      let t = timer_of r h in
      let armed = v.timers_ok.armed r h e in
      let l : run.state ≡ running = ground (arith, v.scheduled r h e, f) in
      rw (fire_due s.timeout_manager h.timer now t armed (ground arith))
        (rw (timeout_lem (fired_state s h.timer t) r run now f l) (rw (due, get-set) (rw eq_refl)))
  | inr early ↦ rw (fire_early s.timeout_manager r h now v.timers_ok e (ground arith), early) f
]
