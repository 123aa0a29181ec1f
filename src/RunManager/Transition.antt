-- ===== src/RunManager/Transition.antt =====
-- The effect of a transition: which error it meets, or the run and the state that it leaves.
use minerva.Base.{
  ℕ, String, ◌≡◌, true, false, none, some, if◌then◌else◌, eq_refl, inl, inr, Bool-cases,
}
use minerva.Dict.{get, set, get-set}
use minerva.Exec.{ok, err, ◌>>◌}
use minerva.Run.{
  Run, RunState, run_not_found, invalid_state_transition, is_valid_state_transition,
  is_terminal_state,
}
use minerva.Timeout.{TimeoutManager}
use minerva.Timeout
use minerva.RunManager.{RunManager, require_run, repo_update}
use minerva.RunManager.Operations.{
  Metadata, transition_updates, clear_if_terminal, transition_state,
}

-- The timeouts after a transition.
abbrev pub cleared : TimeoutManager → String → RunState → TimeoutManager
cleared m r new = if is_terminal_state new then (Timeout.clear m r).0 else m

-- The state after a transition of the run to another state.
abbrev pub moved : RunManager → String → Run → RunState → Metadata → ℕ → RunManager
moved s r run new meta now = record s {
  repo = set r (transition_updates new meta now run) s.repo;
  timeout_manager = cleared s.timeout_manager r new;
}

clear_if_terminal_lem :
    (r : String) (new : RunState) (s : RunManager)
    → clear_if_terminal r new s ≡ (
      ok (if is_terminal_state new then (Timeout.clear s.timeout_manager r).1 else false),
      record s { timeout_manager = cleared s.timeout_manager r new },
    )
unfolding clear_if_terminal
clear_if_terminal_lem r new s = elim (Bool-cases (is_terminal_state new)) [
  | inl e ↦ rw e
  | inr e ↦ rw e
]

pub update_found :
    (s : RunManager) (r : String) (run : Run) (f : Run → Run)
    → get r s.repo ≡ some run
    → repo_update r f s ≡ (ok tt, record s { repo = set r (f run) s.repo })
unfolding repo_update
update_found s r run f e = rw (e, repo_update)

update_read :
    (s : RunManager) (r : String) (run : Run) (f : Run → Run)
    → get r s.repo ≡ some run
    → (repo_update r f >> require_run r) s ≡ (ok (f run), record s { repo = set r (f run) s.repo })
unfolding require_run
update_read s r run f e = rw (update_found s r run f e) (rw get-set (rw eq_refl))

pub require_found :
    (s : RunManager) (r : String) (run : Run)
    → get r s.repo ≡ some run
    → require_run r s ≡ (ok run, s)
unfolding require_run
require_found s r run e = rw e

module _ (s : RunManager) (r : String) (new : RunState) (meta : Metadata) (now : ℕ) where
  -- A run that is not there, and a transition that the table does not have, are refused by the error
  -- for it and change nothing.
  pub transition_missing :
      get r s.repo ≡ none → transition_state r new meta now s ≡ (err (run_not_found r), s)
  unfolding transition_state require_run
  transition_missing e = rw e

  pub transition_invalid :
      (run : Run)
      → get r s.repo ≡ some run
      → is_valid_state_transition run.state new ≡ false
      → transition_state r new meta now s ≡ (err (invalid_state_transition r run.state new), s)
  unfolding transition_state require_run
  transition_invalid run e b = rw e (rw b)

  pub transition_valid :
      (run : Run)
      → get r s.repo ≡ some run
      → is_valid_state_transition run.state new ≡ true
      → transition_state r new meta now s
        ≡ (ok (transition_updates new meta now run), moved s r run new meta now)
  unfolding transition_state
  transition_valid run e b = rw (require_found s r run e) (
      rw b (
        rw (clear_if_terminal_lem r new s) (
          update_read (record s { timeout_manager = cleared s.timeout_manager r new }) r run
            (transition_updates new meta now) e)))
