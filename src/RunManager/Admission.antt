-- ===== src/RunManager/Admission.antt =====
-- The invariant where a run enters the queue, gets its lease and starts.
use minerva.Base.{
  ℕ, String, ◌≡◌, ◌≢◌, refl, ◌∙◌, true, Option, none, some, List, [], ◌∷◌, ◌==◌, if◌then◌else◌,
  arith, eq_iff, eq_refl, inl, inr, Option-cases, head?, includes,
}
use minerva.Dict.{get, set, get-set}
use minerva.Exec.{ok}
use minerva.Run.{Run, queued, leased, is_terminal_state}
use minerva.Lease.Invariant.{acquire-IsConsistent}
use minerva.Timeout.Timers.{schedule-IsLinked, get-schedule}
use minerva.Queue
use minerva.Queue.{RunQueue}
use minerva.Queue.Invariant.{dequeue-IsWellFormed}
use minerva.RunManager.{RunManager}
use minerva.RunManager.Operations.{create_run, new_run, transition_updates, lease_updates}
use minerva.RunManager.Invariant.{Inv, Moves-Inv, IsWaiting}
use minerva.RunManager.Transition.{update_found}
use minerva.RunManager.Effects.{started}
use minerva.RunManager.Preservation.{settled}
use minerva.RunManager.Acquire.{leased_state}
use minerva.Run.{CreateRunInput}
use minerva.Queue.Lanes.{lane, owner-dequeue}
use minerva.Queue.Invariant.{enqueue-IsWellFormed}

pub start-Inv :
    (s : RunManager) (r : String) (run : Run) (now : ℕ)
    → Inv s
    → get r s.repo ≡ some run
    → run.state ≡ leased
    → Inv (started s r run now)
unfolding transition_updates is_terminal_state
start-Inv s r run now v e l = Moves-Inv s _ r run _ v (record {
  was = e;
  same_id = refl;
  same_user = refl;
  not_queued = λ q. cc;
  repo_after = λ j. get-set r j _ s.repo;
  queue_after = settled s r run v e (ground arith);
  others_timeouts = λ j n. get-schedule s.timeout_manager r j run.max_duration_ms now n;
  own_timeout = λ h p. refl;
  queue_well_formed = v.queue_ok;
  leases_consistent = v.leases_ok;
  timers_linked = schedule-IsLinked s.timeout_manager r run.max_duration_ms now v.timers_ok;
})

-- The run at the head of a user's queue is a queued run of the user.
pub head_is_waiting :
    (s : RunManager) (u r : String)
    → Inv s
    → head? (lane s.queue u) ≡ some r
    → (get r s.queue.run_to_user ≡ some u)
      × ((run : Run) × (get r s.repo ≡ some run) × (run.state ≡ queued) × (run.user_id ≡ u))
head_is_waiting s u r v h = (owner, known (get r s.repo) refl (v.enqueued r u owner))
  where
    present : (xs : List String) → head? xs ≡ some r → includes r xs ≡ true
    present [] e = cc
    present (x ∷ xs) e = ground (arith, eq_iff x r)

    owner : get r s.queue.run_to_user ≡ some u
    owner = v.queue_ok.owned u r (present (lane s.queue u) h)

    known :
        (o : Option Run)
        → get r s.repo ≡ o
        → IsWaiting o u
        → (run : Run) × (get r s.repo ≡ some run) × (run.state ≡ queued) × (run.user_id ≡ u)
    known none e w = absurd w
    known (some run) e w = (run, e, w.0, w.1)

pub acquire-Inv :
    (s : RunManager) (u r token : String) (run : Run) (now : ℕ)
    → Inv s
    → head? (lane s.queue u) ≡ some r
    → get r s.repo ≡ some run
    → run.state ≡ queued
    → get token s.lease_manager.token_to_user ≡ none
    → Inv (leased_state s u r run token now)
unfolding lease_updates
acquire-Inv s u r token run now v h e q fresh = Moves-Inv s _ r run _ v (record {
  was = e;
  same_id = refl;
  same_user = refl;
  not_queued = λ p. cc;
  repo_after = λ j. get-set r j _ s.repo;
  queue_after = λ j. owner-dequeue s.queue u j ∙ rw h;
  others_timeouts = λ j n. refl;
  own_timeout = λ t p. ground (arith, v.scheduled r t p, e, q);
  queue_well_formed = dequeue-IsWellFormed s.queue v.queue_ok u;
  leases_consistent =
      acquire-IsConsistent s.lease_manager v.leases_ok u r token s.config.lease_ttl_ms now fresh;
  timers_linked = v.timers_ok;
})

-- The state after `createRun`.
abbrev pub created : RunManager → Run → RunManager
created s run =
    let (queue, position) = Queue.enqueue s.queue run.id run.user_id in
    record s {
      repo = set run.id (record run { queue_position = some position }) (set run.id run s.repo);
      queue = queue;
    }

unfoldable pub positioned : RunManager → Run → Run
positioned s run = record run { queue_position = some (Queue.enqueue s.queue run.id run.user_id).1 }

pub get-created :
    (s : RunManager) (run : Run) (j : String)
    → get j (created s run).repo ≡ (if run.id == j then some (positioned s run) else get j s.repo)
unfolding positioned
get-created s run j = ground (
  arith,
  get-set run.id j (positioned s run) (set run.id run s.repo),
  get-set run.id j run s.repo,
)

owner-created :
    (s : RunManager) (run : Run) (j : String)
    → get j (created s run).queue.run_to_user
      ≡ (if run.id == j then some run.user_id else get j s.queue.run_to_user)
owner-created s run j = unfold Queue.enqueue in get-set run.id j run.user_id s.queue.run_to_user

-- An id that the repository does not know waits in no queue.
unknown_is_absent :
    (s : RunManager) (r : String) → Inv s → get r s.repo ≡ none → get r s.queue.run_to_user ≡ none
unknown_is_absent s r v fresh = elim (Option-cases (get r s.queue.run_to_user)) [
  | inl e ↦ e
  | inr (u, e) ↦ ground (arith, v.enqueued r u e, fresh)
]

module _ (s : RunManager) (run : Run) (v : Inv s) (q : run.state ≡ queued) (n : run.user_id ≢ "")
    (fresh : get run.id s.repo ≡ none) where
  pub created-Inv : Inv (created s run)
  unfolding positioned
  created-Inv = record {
    queue_ok =
        enqueue-IsWellFormed s.queue v.queue_ok run.id run.user_id
          (unknown_is_absent s run.id v fresh);
    leases_ok = v.leases_ok;
    timers_ok = v.timers_ok;
    filed = λ j k e. ground (arith, e, n, get-created s run j, v.filed j k, eq_iff run.id j);
    enqueued = λ j u e.
        ground (
          arith,
          e,
          q,
          get-created s run j,
          owner-created s run j,
          v.enqueued j u,
          eq_iff run.id j,
        );
    waits = λ j k e p.
        ground
          (arith, e, p, get-created s run j, owner-created s run j, v.waits j k, eq_iff run.id j);
    scheduled =
        λ j h e. ground (arith, e, fresh, get-created s run j, v.scheduled j h, eq_iff run.id j);
  }

-- `createRun` files a queued run under its id, at the end of its user's queue.
pub create_lem :
    (s : RunManager) (input : CreateRunInput) (r : String) (now : ℕ)
    → let run = new_run s.config input r now in
      create_run input r now s ≡ (ok (positioned s run), created s run)
unfolding create_run new_run positioned
create_lem s input r now = rw (
    update_found
      (record s {
        repo = set r (new_run s.config input r now) s.repo;
        queue = (Queue.enqueue s.queue r (new_run s.config input r now).user_id).0;
      })
      r (new_run s.config input r now)
      (λ k. record k {
        queue_position = some (Queue.enqueue s.queue r (new_run s.config input r now).user_id).1;
      })
      (get-set r r _ s.repo ∙ rw eq_refl))
