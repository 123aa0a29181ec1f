-- ===== src/Execution/Rounds.antt =====
-- services/orchestrator/src/runtime/run-execution.service.ts: the loop of `processUserQueue` works off
-- the queue of its user.
use minerva.Base.{
  ℕ, zero, suc, ◌<◌, String, ◌≡◌, ◌≢◌, ◌==◌, eq_iff, refl, sym, ap, subst, ◌∙◌, true, false, Option,
  none, some, List, [], ◌∷◌, ◌++◌, arith, length, head?, tail, truthy, test_of_ne, includes,
  IsDistinct,
}
use minerva.Dict.{Dict, get}
use minerva.Exec.{Result, ok}
use minerva.Run.{Run, is_terminal_state}
use minerva.Queue.Lanes.{lane}
use minerva.RunManager.Operations.{acquire_next_run}
use minerva.RunManager.Invariant.{Inv}
use minerva.RunManager.Acquire.{acquire_idle}
use minerva.Execution.{ExecutionError, RunExecutionService}
use minerva.Execution.Attempt.{Surroundings, execute_run, round, rounds, process_user_queue}
use minerva.Execution.Operations.{claim_user, release_user}
use minerva.Execution.Outcome.{manage_ok, manage_eq, includes-without}
use minerva.Execution.Ends.{execute_run_lem}
use minerva.Execution.Taken.{acquire_held}

-- The run of this id has ended.
abbrev pub HasEnded : Option Run → Type 0
HasEnded none = ⊥
HasEnded (some run) = is_terminal_state run.state ≡ true

abbrev pub AllEnded : Dict Run → List String → Type 0
AllEnded repo [] = Unit
AllEnded repo (r ∷ rs) = HasEnded (get r repo) × AllEnded repo rs

module _ (to_lower_case : String → String) (message_of : ExecutionError → String)
    (token : ℕ → String) (clock : ℕ → ℕ) (surroundings : Run → Surroundings) where
  rounds_stop :
      (fuel : ℕ) (s : RunExecutionService) (u : String)
      → acquire_next_run u (token fuel) (clock fuel) s.run_manager ≡ (ok none, s.run_manager)
      → rounds to_lower_case message_of token clock surroundings (suc fuel) u s ≡ (ok true, s)
  unfolding rounds round
  rounds_stop fuel s u e =
      rw (manage_eq (acquire_next_run u (token fuel) (clock fuel)) s none s.run_manager e) refl

  -- The state in which a round's run is executed.
  abbrev acquired : ℕ → RunExecutionService → String → RunExecutionService
  acquired fuel s u = record s {
    run_manager = (acquire_next_run u (token fuel) (clock fuel) s.run_manager).1;
  }

  abbrev executed : Run → RunExecutionService → Result ExecutionError Unit × RunExecutionService
  executed run = execute_run to_lower_case message_of run (surroundings run)

  rounds_go :
      (fuel : ℕ) (s : RunExecutionService) (u : String) (run : Run)
      → (acquire_next_run u (token fuel) (clock fuel) s.run_manager).0 ≡ ok (some run)
      → (executed run (acquired fuel s u)).0 ≡ ok tt
      → rounds to_lower_case message_of token clock surroundings (suc fuel) u s
        ≡ rounds to_lower_case message_of token clock surroundings fuel u
            (executed run (acquired fuel s u)).1
  unfolding rounds round
  rounds_go fuel s u run e f =
      rw (manage_ok (acquire_next_run u (token fuel) (clock fuel)) s (some run) e) (rw f refl)

  -- The loop has come to its `break`: nothing waits for the user, and all that waited has ended.
  record Drained (s s' : RunExecutionService) (u : String) (waiting : List String) : Type 0 where
    inv : Inv s'.run_manager
    empty : lane s'.run_manager.queue u ≡ []
    all : AllEnded s'.run_manager.repo waiting
    free : get u s'.run_manager.lease_manager.leases ≡ none
    others :
        (j : String)
        → includes j waiting ≡ false
        → get j s'.run_manager.repo ≡ get j s.run_manager.repo
    same_users : s'.processing_users ≡ s.processing_users

  rounds_lem :
      (fuel : ℕ) (s : RunExecutionService) (u : String) (waiting : List String)
      → Inv s.run_manager
      → lane s.run_manager.queue u ≡ waiting
      → length waiting < fuel
      → includes "" waiting ≡ false
      → IsDistinct waiting
      → get u s.run_manager.lease_manager.leases ≡ none
      → ((n : ℕ) → token n ≢ "")
      → ((i j : ℕ) → token i ≡ token j → i ≡ j)
      → ((n : ℕ) → n < fuel → get (token n) s.run_manager.lease_manager.token_to_user ≡ none)
      → let outcome = rounds to_lower_case message_of token clock surroundings fuel u s in
        (outcome.0 ≡ ok true) × Drained s outcome.1 u waiting
  rounds_lem zero s u waiting v h long named d free nonempty injective fresh = absurd (omega arith)
  rounds_lem (suc fuel) s u [] v h long named d free nonempty injective fresh =
      let idle : truthy (head? (lane s.run_manager.queue u)) ≡ none = rw h refl in
      let e = acquire_idle s.run_manager u (token fuel) (clock fuel) idle in
      rw (rounds_stop fuel s u e) (
        refl,
        record {
          inv = v;
          empty = h;
          all = tt;
          free = free;
          others = λ j n. refl;
          same_users = refl;
        },
      )
  rounds_lem (suc fuel) s u (r ∷ rs) v h long named d free nonempty injective fresh =
      let (run, got, t) =
        acquire_held s.run_manager u (token fuel) r (clock fuel) v (ap head? h)
          (ground (arith, eq_iff r "")) (nonempty fuel) (fresh fuel (omega arith)) free in
      let s1 = acquired fuel s u in
      let (returned, f) =
        execute_run_lem to_lower_case message_of s1 run _ (surroundings run) t.held t.leased in
      let s2 = (executed run s1).1 in
      let (looped, drained) =
        rounds_lem fuel s2 u rs f.ended.inv
          (ap (λ q. lane q u) f.ended.same_queue ∙ (t.lanes ∙ ap tail h)) (omega (arith, long))
          (ground arith) d.1
          (subst (λ w. get w s2.run_manager.lease_manager.leases ≡ none) t.user f.ended.no_lease)
          nonempty injective
          (λ n small. f.ended.unused (token n) (
            t.unused (token n)
              (test_of_ne (token fuel) (token n) λ e. omega (arith, injective fuel n e))
              (fresh n (omega arith)))) in
      rw (rounds_go fuel s u run got returned) (
        looped,
        record {
          inv = drained.inv;
          empty = drained.empty;
          all = (
            subst HasEnded
                (sym (
                  drained.others r d.0
                  ∙ (ap (λ k. get k s2.run_manager.repo) (sym t.id) ∙ f.ended.stored)))
                f.ended.terminal,
            drained.all,
          );
          free = drained.free;
          others = λ j n.
              let other : (r == j) ≡ false = ground arith in
              drained.others j (ground arith)
              ∙ (f.ended.others j (subst (λ k. (k == j) ≡ false) (sym t.id) other)
                  ∙ t.others j other);
          same_users = drained.same_users ∙ f.same_users;
        },
      )

  -- In a manager that satisfies the invariant, where no one works off the user's queue, the user has
  -- no lease, the waiting ids are not empty, and the tokens to come are not empty, different and not
  -- in use: with more fuel than runs wait, `processUserQueue` comes to its end without an error. Then
  -- nothing waits for the user, every run that waited has ended, whatever its surroundings answered,
  -- the user has no lease, and no one works off the user's queue.
  pub process_user_queue_lem :
      (fuel : ℕ) (s : RunExecutionService) (u : String)
      → Inv s.run_manager
      → includes u s.processing_users ≡ false
      → get u s.run_manager.lease_manager.leases ≡ none
      → includes "" (lane s.run_manager.queue u) ≡ false
      → ((n : ℕ) → token n ≢ "")
      → ((i j : ℕ) → token i ≡ token j → i ≡ j)
      → ((n : ℕ) → get (token n) s.run_manager.lease_manager.token_to_user ≡ none)
      → length (lane s.run_manager.queue u) < fuel
      → let outcome =
          process_user_queue to_lower_case message_of token clock surroundings fuel u s in
        (outcome.0 ≡ ok true)
        × (lane outcome.1.run_manager.queue u ≡ [])
        × AllEnded outcome.1.run_manager.repo (lane s.run_manager.queue u)
        × (get u outcome.1.run_manager.lease_manager.leases ≡ none)
        × (includes u outcome.1.processing_users ≡ false)
  unfolding process_user_queue claim_user release_user
  process_user_queue_lem fuel s u v idle free named nonempty injective fresh long =
      let s' = record s { processing_users = s.processing_users ++ u ∷ [] } in
      let (looped, drained) =
        rounds_lem fuel s' u (lane s.run_manager.queue u) v refl long named (v.queue_ok.distinct u)
          free nonempty injective (λ n small. fresh n) in
      rw idle (
        looped,
        drained.empty,
        drained.all,
        drained.free,
        includes-without u
            (rounds to_lower_case message_of token clock surroundings fuel u s').1.processing_users,
      )
