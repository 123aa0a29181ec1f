-- ===== src/Execution/Taken.antt =====
-- services/orchestrator/src/services/run-manager.ts: what `acquireNextRun` leaves for the loop of
-- `processUserQueue`.
use minerva.Base.{
  ℕ, String, ◌≡◌, ◌≢◌, ◌==◌, eq_refl, eq_iff, refl, sym, subst, ◌∙◌, false, none, some, arith,
  head?, tail, truthy,
}
use minerva.Dict.{get, get-set}
use minerva.Exec.{ok}
use minerva.Run.{Run, leased, queued}
use minerva.Lease.{Lease}
use minerva.Lease.Exclusion.{live_lease, leases-acquire, tokens-acquire_other}
use minerva.Queue.Lanes.{lane, lane-dequeue}
use minerva.RunManager.{RunManager}
use minerva.RunManager.Operations.{acquire_next_run, lease_updates}
use minerva.RunManager.Invariant.{Inv}
use minerva.RunManager.Acquire.{granted, leased_state, acquire_taken}
use minerva.RunManager.Admission.{acquire-Inv, head_is_waiting}
use minerva.RunManager.Endings.{Holds}

-- What `acquireNextRun` leaves where it gives out the run `r` of a user who holds no lease.
pub record Taken (m m' : RunManager) (u r token : String) (run : Run) (l : Lease) : Type 0 where
  pub held : Holds m' run.id run l
  pub leased : run.state ≡ leased
  pub id : run.id ≡ r
  pub user : run.user_id ≡ u
  pub lanes : lane m'.queue u ≡ tail (lane m.queue u)
  pub others : (j : String) → (r == j) ≡ false → get j m'.repo ≡ get j m.repo
  pub unused :
      (t : String)
      → (token == t) ≡ false
      → get t m.lease_manager.token_to_user ≡ none
      → get t m'.lease_manager.token_to_user ≡ none

pub taken :
    (m : RunManager) (u token r : String) (now : ℕ) (run : Run)
    → Inv m
    → head? (lane m.queue u) ≡ some r
    → get r m.repo ≡ some run
    → run.state ≡ queued
    → run.user_id ≡ u
    → run.id ≡ r
    → token ≢ ""
    → get token m.lease_manager.token_to_user ≡ none
    → get u m.lease_manager.leases ≡ none
    → Taken m
        (leased_state m u r run token now)
        u
        r
        token
        (lease_updates (granted m r token now) now run)
        (granted m r token now)
unfolding lease_updates
taken m u token r now run v h e q w same named fresh free =
    let idle : live_lease m.lease_manager u now ≡ none = rw free refl in
    let after = leased_state m u r run token now in
    let run' = lease_updates (granted m r token now) now run in
    record {
      held =
          subst (λ k. Holds after k run' (granted m r token now)) (sym same)
            (record {
              inv = acquire-Inv m u r token run now v h e q fresh;
              stored = rw get-set (rw eq_refl refl);
              lease_token = refl;
              named = named;
              lease = rw w (
                  rw (leases-acquire m.lease_manager u r token m.config.lease_ttl_ms now u idle)
                    (rw eq_refl refl));
            });
      leased = refl;
      id = same;
      user = w;
      lanes = rw (lane-dequeue m.queue u u) (rw eq_refl refl);
      others = λ j n. rw get-set (rw n refl);
      unused = λ t n f.
          tokens-acquire_other m.lease_manager u r token m.config.lease_ttl_ms now t idle n
            (λ l g. cc)
          ∙ f;
    }

pub acquire_held :
    (m : RunManager) (u token r : String) (now : ℕ)
    → Inv m
    → head? (lane m.queue u) ≡ some r
    → r ≢ ""
    → token ≢ ""
    → get token m.lease_manager.token_to_user ≡ none
    → get u m.lease_manager.leases ≡ none
    → (run : Run) × ((acquire_next_run u token now m).0 ≡ ok (some run))
      × Taken m (acquire_next_run u token now m).1 u r token run (granted m r token now)
acquire_held m u token r now v h n named fresh free =
    let t : truthy (head? (lane m.queue u)) ≡ some r = ground (arith, h, eq_iff r "") in
    let (run, e, q, w) = (head_is_waiting m u r v h).1 in
    let idle : live_lease m.lease_manager u now ≡ none = rw free refl in
    rw (acquire_taken m u token now r run t idle e) (
      lease_updates (granted m r token now) now run,
      refl,
      taken m u token r now run v h e q w (v.filed r run e).0 named fresh free,
    )
