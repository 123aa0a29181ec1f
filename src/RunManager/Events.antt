-- ===== src/RunManager/Events.antt =====
-- Calls on the run manager, and the timers of the event loop, as events that change its state; and how
-- a run may evolve between two states.
use minerva.Base.{
  ℕ, String, ◌≡◌, ◌≢◌, refl, Bool, true, false, Option, none, some, List, ◌==◌, if◌then◌else◌,
  arith, eq_iff, inl, ◌⊎◌,
}
use minerva.Dict.{Dict, get, set, get-set}
use minerva.Run.{Run, CreateRunInput, AgentMessage, is_valid_state_transition}
use minerva.RunManager.{RunManager}
use minerva.RunManager.Operations.{
  create_run, new_run, acquire_next_run, start_run, cancel_run, complete_run, fail_run, run_timer,
}

-- Each event carries what its call takes, the time last.
pub data Event : Type 0 where
  creates : CreateRunInput → String → ℕ → Event
  acquires : String → String → ℕ → Event
  starts : String → ℕ → Event
  cancels : String → Option String → ℕ → Event
  completes : String → Option (List AgentMessage) → ℕ → Event
  fails : String → String → ℕ → Event
  fires : ℕ → ℕ → Event

-- The state after an event, whether the call returned or threw.
unfoldable pub step : RunManager → Event → RunManager
step s (creates input run_id now) = (create_run input run_id now s).1
step s (acquires user_id token now) = (acquire_next_run user_id token now s).1
step s (starts run_id now) = (start_run run_id now s).1
step s (cancels run_id reason now) = (cancel_run run_id reason now s).1
step s (completes run_id messages now) = (complete_run run_id messages now s).1
step s (fails run_id error now) = (fail_run run_id error now s).1
step s (fires timer now) = (run_timer timer now s).1

-- What the random ids promise, and that a run's user has a name.
abbrev pub IsFresh : RunManager → Event → Type 0
IsFresh s (creates input run_id now) =
    (get run_id s.repo ≡ none) × ((new_run s.config input run_id now).user_id ≢ "")
IsFresh s (acquires user_id token now) = get token s.lease_manager.token_to_user ≡ none
IsFresh s _ = Unit {0}

-- The state of a run stays, or takes one transition of the table; its identity and its order stay.
pub record Evolves (run run' : Run) : Type 0 where
  pub same_id : run'.id ≡ run.id
  pub same_owner : run'.owner ≡ run.owner
  pub same_user : run'.user_id ≡ run.user_id
  pub same_creation : run'.created_at ≡ run.created_at
  pub same_limit : run'.max_duration_ms ≡ run.max_duration_ms
  pub same_pack : run'.agent_pack_id ≡ run.agent_pack_id
  pub same_prompt : run'.prompt ≡ run.prompt
  pub state_moves :
      (run'.state ≡ run.state) ⊎ (is_valid_state_transition run.state run'.state ≡ true)

pub Evolves-refl : (run : Run) → Evolves run run
Evolves-refl run = record {
  same_id = refl;
  same_owner = refl;
  same_user = refl;
  same_creation = refl;
  same_limit = refl;
  same_pack = refl;
  same_prompt = refl;
  state_moves = inl refl;
}

abbrev pub EvolvesTo : Run → Option Run → Type 0
EvolvesTo run none = ⊥
EvolvesTo run (some run') = Evolves run run'

-- No run is lost, and every run evolves.
abbrev pub Follows : Dict Run → Dict Run → Type 0
Follows before after =
    (r : String) (run : Run) → get r before ≡ some run → EvolvesTo run (get r after)

pub Follows-refl : (repo : Dict Run) → Follows repo repo
Follows-refl repo r run e = rw e (Evolves-refl run)

pub Follows-set :
    (repo : Dict Run) (r : String) (run run' : Run)
    → get r repo ≡ some run
    → Evolves run run'
    → Follows repo (set r run' repo)
Follows-set repo r run run' e ev j k f = rw get-set (by_key (r == j) refl)
  where
    by_key : (b : Bool) → (r == j) ≡ b → EvolvesTo k (if b then some run' else get j repo)
    by_key true h = let same : run ≡ k = ground (arith, e, f, eq_iff r j, h) in rw (← same) ev
    by_key false h = rw f (Evolves-refl k)
