-- ===== src/RunManager/Endings.antt =====
-- `completeRun` and `failRun`: the end of a run, and of its lease.
use minerva.Base.{
  ℕ, String, ◌≡◌, ◌≢◌, ◌==◌, refl, sym, subst, ◌∙◌, true, false, Option, none, some, List, arith,
  eq_iff, eq_refl, inl, inr, Option-cases, truthy,
}
use minerva.Dict.{get, get-set, get-delete}
use minerva.Exec.{ok, err}
use minerva.Run.{
  Run, RunState, AgentMessage, queued, leased, completed, invalid_state_transition,
  is_terminal_state, is_valid_state_transition,
}
use minerva.Lease.{Lease, LeaseManager, release, holder}
use minerva.Lease.Exclusion.{leases-release}
use minerva.RunManager.Preservation.{finish-valid-Inv}
use minerva.Timeout.Timers.{get-clear}
use minerva.RunManager.{RunManager}
use minerva.RunManager.Operations.{complete_run, finish_run, transition_updates, Metadata}
use minerva.RunManager.Invariant.{Inv}
use minerva.RunManager.Transition.{transition_valid, transition_invalid}
use minerva.RunManager.Effects.{released, release_of, let_go, finish_found}

-- The user has no lease after the release of the one that the run holds.
freed :
    (s : RunManager) (run : Run) (l : Lease)
    → Inv s
    → run.user_id ≢ ""
    → run.lease_token ≡ some l.token
    → l.token ≢ ""
    → get run.user_id s.lease_manager.leases ≡ some l
    → get run.user_id (released s.lease_manager run.lease_token).leases ≡ none
freed s run l v named t n h =
    let e : truthy run.lease_token ≡ some l.token = ground (arith, t, eq_iff l.token "", n) in
    subst (λ o. get run.user_id (release_of s.lease_manager o).leases ≡ none) (sym e)
      (leases-release s.lease_manager run.user_id run.user_id l v.leases_ok named h ∙ rw eq_refl)

-- What no user holds stays free when a token is released.
tokens-release :
    (m : LeaseManager) (o : Option String) (t : String)
    → get t m.token_to_user ≡ none
    → get t (released m o).token_to_user ≡ none
unfolding release
tokens-release m o t h = by_token (truthy o)
  where
    by_token : (token : Option String) → get t (release_of m token).token_to_user ≡ none
    by_token none = h
    by_token (some token) = elim (Option-cases (holder m token)) [
      | inl e ↦ rw (e, release) h
      | inr (held, e) ↦ rw (e, release) (ground (arith, h, get-delete token t m.token_to_user))
    ]

module _ (s : RunManager) (r : String) (run : Run) (l : Lease) where
  -- The run is stored, and holds the lease of its user under a token that is not empty.
  pub record Holds : Type 0 where
    pub inv : Inv s
    pub stored : get r s.repo ≡ some run
    pub lease_token : run.lease_token ≡ some l.token
    pub named : l.token ≢ ""
    pub lease : get run.user_id s.lease_manager.leases ≡ some l

-- The run has ended, and the user has no lease.
pub record Ended (s s' : RunManager) (r u : String) (run' : Run) : Type 0 where
  pub inv : Inv s'
  pub stored : get r s'.repo ≡ some run'
  pub terminal : is_terminal_state run'.state ≡ true
  pub no_timeout : get r s'.timeout_manager.timeouts ≡ none
  pub no_lease : get u s'.lease_manager.leases ≡ none
  pub same_queue : s'.queue ≡ s.queue
  pub others : (j : String) → (r == j) ≡ false → get j s'.repo ≡ get j s.repo
  pub unused :
      (t : String)
      → get t s.lease_manager.token_to_user ≡ none
      → get t s'.lease_manager.token_to_user ≡ none

pub finish_held :
    (s : RunManager) (r : String) (run : Run) (l : Lease) (new : RunState) (meta : Metadata)
    (now : ℕ)
    → Holds s r run l
    → run.state ≢ queued
    → is_valid_state_transition run.state new ≡ true
    → is_terminal_state new ≡ true
    → let s' = (finish_run r new meta now s).1 in
      ((finish_run r new meta now s).0 ≡ ok (transition_updates new meta now run))
      × Ended s s' r run.user_id (transition_updates new meta now run)
finish_held s r run l new meta now h q b last = rw (finish_found s r run new meta now h.stored) (
    rw (transition_valid (let_go s r run) r new meta now run h.stored b) (
      refl,
      record {
        inv = finish-valid-Inv s r run new meta now h.inv h.stored q last;
        stored = rw get-set (rw eq_refl);
        terminal = unfold transition_updates in last;
        no_timeout = rw last (rw get-clear (rw eq_refl));
        no_lease = freed s run l h.inv (h.inv.filed r run h.stored).1 h.lease_token h.named h.lease;
        same_queue = refl;
        others = λ j n. rw get-set (rw n refl);
        unused = tokens-release s.lease_manager run.lease_token;
      },
    ))

-- In a manager that satisfies the invariant, `completeRun` on a leased run, which holds the lease of
-- its user under a token that is not empty, throws and leaves the run leased, but its user has no lease
-- any more.
pub complete_run_too_early :
    (s : RunManager) (r : String) (run : Run) (l : Lease) (messages : Option (List AgentMessage))
    (now : ℕ)
    → Inv s
    → get r s.repo ≡ some run
    → run.state ≡ leased
    → run.lease_token ≡ some l.token
    → l.token ≢ ""
    → get run.user_id s.lease_manager.leases ≡ some l
    → ((complete_run r messages now s).0 ≡ err (invalid_state_transition r leased completed))
      × (get r (complete_run r messages now s).1.repo ≡ some run)
      × (get run.user_id (complete_run r messages now s).1.lease_manager.leases ≡ none)
unfolding complete_run
complete_run_too_early s r run l messages now v e q t n h =
    let b : is_valid_state_transition run.state completed ≡ false =
      rw q (unfold is_valid_state_transition in refl) in
    rw (finish_found s r run completed (record { error = none; final_messages = messages }) now e) (
      rw
        (transition_invalid (let_go s r run) r completed
          (record { error = none; final_messages = messages }) now run e b)
        (rw q, e, freed s run l v (v.filed r run e).1 t n h))
