-- ===== src/RunManager/Steps.antt =====
-- services/run-manager.ts: the invariant and the states of runs under each call.
use minerva.Base.{
  ℕ, String, ◌≡◌, ◌≢◌, refl, ap, Bool, true, false, Option, none, some, ◌==◌, if◌then◌else◌, arith,
  eq_iff, inl, inr, Option-cases, Bool-cases, or_else, truthy, head?,
}
use minerva.Dict.{get}
use minerva.Exec.{err}
use minerva.Run.{
  Run, RunState, CreateRunInput, queued, leased, running, cancelled, run_not_found,
  is_valid_state_transition, is_terminal_state,
}
use minerva.Lease.Exclusion.{live_lease}
use minerva.Queue.Lanes.{lane}
use minerva.RunManager.{RunManager, require_run}
use minerva.RunManager.Operations.{
  Metadata, no_metadata, create_run, new_run, transition_updates, acquire_next_run, start_run,
  cancel_run, finish_run, lease_updates,
}
use minerva.RunManager.Invariant.{Inv}
use minerva.RunManager.Transition.{transition_valid, transition_invalid, transition_missing}
use minerva.RunManager.Effects.{
  start_found, start_refused, withdrawn, error_only, cancel_found, cancel_finished, let_go,
  finish_found,
}
use minerva.RunManager.Acquire.{granted, acquire_idle, acquire_blocked, acquire_taken}
use minerva.RunManager.Preservation.{finish-valid-Inv, let_go-Inv, cancel-Inv}
use minerva.RunManager.Admission.{
  start-Inv, acquire-Inv, head_is_waiting, created-Inv, positioned, get-created, create_lem,
}
use minerva.RunManager.Events.{Evolves, EvolvesTo, Follows, Follows-refl, Follows-set, Evolves-refl}

pub record IsGood (s s' : RunManager) : Type 0 where
  pub inv : Inv s'
  pub follows : Follows s.repo s'.repo

pub IsGood-refl : (s : RunManager) → Inv s → IsGood s s
IsGood-refl s v = record { inv = v; follows = Follows-refl s.repo }

pub transition-Evolves :
    (run : Run) (new : RunState) (meta : Metadata) (now : ℕ)
    → is_valid_state_transition run.state new ≡ true
    → Evolves run (transition_updates new meta now run)
unfolding transition_updates
transition-Evolves run new meta now b = record {
  same_id = refl;
  same_owner = refl;
  same_user = refl;
  same_creation = refl;
  same_limit = refl;
  same_pack = refl;
  same_prompt = refl;
  state_moves = inr b;
}

require_missing :
    (s : RunManager) (r : String)
    → get r s.repo ≡ none
    → require_run r s ≡ (err (run_not_found r), s)
unfolding require_run
require_missing s r e = rw e

module _ (s : RunManager) (v : Inv s) where
  pub finish-IsGood :
      (r : String) (new : RunState) (meta : Metadata) (now : ℕ)
      → is_terminal_state new ≡ true
      → is_valid_state_transition queued new ≡ false
      → IsGood s (finish_run r new meta now s).1
  finish-IsGood r new meta now t n = elim (Option-cases (get r s.repo)) [
    | inl e ↦ unfold finish_run in rw (require_missing s r e) (IsGood-refl s v)
    | inr (run, e) ↦
        rw (finish_found s r run new meta now e)
          (elim (Bool-cases (is_valid_state_transition run.state new)) [
            | inl b ↦ rw (transition_valid (let_go s r run) r new meta now run e b) (record {
              inv =
                  finish-valid-Inv s r run new meta now v e
                    (λ q. cc (ap (λ x. is_valid_state_transition x new) q)) t;
              follows = Follows-set s.repo r run _ e (transition-Evolves run new meta now b);
            })
            | inr b ↦
                rw (transition_invalid (let_go s r run) r new meta now run e b)
                  (record { inv = let_go-Inv s r run v; follows = Follows-refl s.repo })
          ])
  ]

  pub nonterminal_can_cancel :
      (state : RunState)
      → is_terminal_state state ≡ false
      → is_valid_state_transition state cancelled ≡ true
  unfolding is_terminal_state is_valid_state_transition
  nonterminal_can_cancel state h = ground arith

  pub cancel-IsGood :
      (r : String) (reason : Option String) (now : ℕ) → IsGood s (cancel_run r reason now s).1
  cancel-IsGood r reason now = elim (Option-cases (get r s.repo)) [
    | inl e ↦ unfold cancel_run in rw (require_missing s r e) (IsGood-refl s v)
    | inr (run, e) ↦ elim (Bool-cases (is_terminal_state run.state)) [
      | inl t ↦ rw (cancel_finished s r run reason now e t) (IsGood-refl s v)
      | inr t ↦
          let b = nonterminal_can_cancel run.state t in
          let why = or_else reason "user_cancelled" in
          let meta = error_only (or_else reason "cancelled") in
          rw (cancel_found s r run reason now e t) (
            rw (transition_valid (withdrawn s r run why) r cancelled meta now run e b) (record {
              inv = cancel-Inv s r run why meta now v e;
              follows = Follows-set s.repo r run _ e (transition-Evolves run cancelled meta now b);
            }))
    ]
  ]

  only_leased_starts :
      (state : RunState) → is_valid_state_transition state running ≡ true → state ≡ leased
  unfolding is_valid_state_transition
  only_leased_starts state h = ground arith

  pub start-IsGood : (r : String) (now : ℕ) → IsGood s (start_run r now s).1
  start-IsGood r now = elim (Option-cases (get r s.repo)) [
    | inl e ↦
        unfold start_run in rw (transition_missing s r running no_metadata now e) (IsGood-refl s v)
    | inr (run, e) ↦ elim (Bool-cases (is_valid_state_transition run.state running)) [
      | inl b ↦
          let l = only_leased_starts run.state b in
          rw (start_found s r run now e l) (record {
            inv = start-Inv s r run now v e l;
            follows =
                Follows-set s.repo r run _ e (transition-Evolves run running no_metadata now b);
          })
      | inr b ↦ rw (start_refused s r run now e b) (IsGood-refl s v)
    ]
  ]

  lease-Evolves :
      (u r token : String) (run : Run) (now : ℕ)
      → run.state ≡ queued
      → Evolves run (lease_updates (granted s r token now) now run)
  unfolding lease_updates is_valid_state_transition
  lease-Evolves u r token run now q = record {
    same_id = refl;
    same_owner = refl;
    same_user = refl;
    same_creation = refl;
    same_limit = refl;
    same_pack = refl;
    same_prompt = refl;
    state_moves = inr (rw q refl);
  }

  pub acquire-IsGood :
      (u token : String) (now : ℕ)
      → get token s.lease_manager.token_to_user ≡ none
      → IsGood s (acquire_next_run u token now s).1
  acquire-IsGood u token now fresh = elim (Option-cases (truthy (head? (lane s.queue u)))) [
    | inl e ↦ rw (acquire_idle s u token now e) (IsGood-refl s v)
    | inr (r, e) ↦ elim (Option-cases (live_lease s.lease_manager u now)) [
      | inr (l, f) ↦ rw (acquire_blocked s u token now r l e f) (IsGood-refl s v)
      | inl f ↦
          let h : head? (lane s.queue u) ≡ some r = ground (arith, e) in
          let (run, g, q, _) = (head_is_waiting s u r v h).1 in
          rw (acquire_taken s u token now r run e f g) (record {
            inv = acquire-Inv s u r token run now v h g q fresh;
            follows = Follows-set s.repo r run _ g (lease-Evolves u r token run now q);
          })
    ]
  ]

  pub create-IsGood :
      (input : CreateRunInput) (r : String) (now : ℕ)
      → get r s.repo ≡ none
      → (new_run s.config input r now).user_id ≢ ""
      → IsGood s (create_run input r now s).1
  unfolding new_run
  create-IsGood input r now fresh n = rw (create_lem s input r now) (record {
    inv = created-Inv s (new_run s.config input r now) v refl n fresh;
    follows =
        λ j run e. rw (get-created s (new_run s.config input r now) j) (kept j run e (r == j) refl);
  })
    where
      kept :
          (j : String) (run : Run)
          → get j s.repo ≡ some run
          → (b : Bool) → (r == j) ≡ b
          → EvolvesTo run
              (if b then some (positioned s (new_run s.config input r now)) else get j s.repo)
      kept j run e true h = ground (arith, e, fresh, eq_iff r j, h)
      kept j run e false h = rw e (Evolves-refl run)
