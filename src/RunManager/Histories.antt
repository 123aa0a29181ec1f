-- ===== src/RunManager/Histories.antt =====
-- Whole histories of events from a new run manager.
use minerva.Base.{String, ◌≡◌, refl, sym, subst, ◌∙◌, Option, none, some, inl, inr}
use minerva.Dict.{get}
use minerva.Run.{Run, is_terminal_state, is_valid_state_transition, completed, failed}
use minerva.Run.Transitions.{◌⟶*◌, here, next, valid_iff_arrow}
use minerva.Queue.Invariant.{empty-IsWellFormed}
use minerva.Lease.Invariant.{empty-IsConsistent}
use minerva.Timeout.Timers.{empty-IsLinked}
use minerva.RunManager.{RunManager, RunManagerConfig, new}
use minerva.RunManager.Operations.{complete_run, fail_run}
use minerva.RunManager.Invariant.{Inv}
use minerva.RunManager.Events.{
  Event, creates, acquires, starts, cancels, completes, fails, fires, step, IsFresh, EvolvesTo,
}
use minerva.RunManager.Steps.{
  IsGood, create-IsGood, acquire-IsGood, start-IsGood, cancel-IsGood, finish-IsGood,
}
use minerva.RunManager.Expiry.{run_timer-IsGood}

pub new-Inv : (config : RunManagerConfig) → Inv (new config)
unfolding get
new-Inv config = record {
  queue_ok = empty-IsWellFormed;
  leases_ok = empty-IsConsistent;
  timers_ok = empty-IsLinked;
  filed = λ r run e. cc;
  enqueued = λ r u e. cc;
  waits = λ r run e q. cc;
  scheduled = λ r h e. cc;
}

-- From a state that satisfies the invariant, every event, whether its call returns or throws, keeps the
-- invariant, loses no run, and changes the state of a run only by a transition of the table, if its
-- random ids are new and a created run's user has a name.
pub step-IsGood : (s : RunManager) (e : Event) → Inv s → IsFresh s e → IsGood s (step s e)
unfolding step complete_run fail_run is_terminal_state is_valid_state_transition
step-IsGood s (creates input r now) v f = create-IsGood s v input r now f.0 f.1
step-IsGood s (acquires u token now) v f = acquire-IsGood s v u token now f
step-IsGood s (starts r now) v f = start-IsGood s v r now
step-IsGood s (cancels r reason now) v f = cancel-IsGood s v r reason now
step-IsGood s (completes r messages now) v f = finish-IsGood s v r completed _ now refl refl
step-IsGood s (fails r message now) v f = finish-IsGood s v r failed _ now refl refl
step-IsGood s (fires i now) v f = run_timer-IsGood s i now v

-- The states that events with fresh ids lead to.
pub data Reach (s : RunManager) : RunManager → Type 0 where
  start : Reach s s
  further : {t : RunManager} (e : Event) → Reach s t → IsFresh t e → Reach s (step t e)

pub Reach-Inv : {s t : RunManager} → Inv s → Reach s t → Inv t
Reach-Inv v start = v
Reach-Inv v (further {t} e r f) = (step-IsGood t e (Reach-Inv v r) f).inv

-- A run and a later value of it: same identity, and a state further along the diagram.
pub record Descends (run run' : Run) : Type 0 where
  pub same_id : run'.id ≡ run.id
  pub same_owner : run'.owner ≡ run.owner
  pub same_prompt : run'.prompt ≡ run.prompt
  pub path : run.state ⟶* run'.state

abbrev DescendsTo : Run → Option Run → Type 0
DescendsTo run none = ⊥
DescendsTo run (some run') = Descends run run'

extend : (run mid : Run) (o : Option Run) → Descends run mid → EvolvesTo mid o → DescendsTo run o
extend run mid none d e = absurd e
extend run mid (some run') d e = record {
  same_id = e.same_id ∙ d.same_id;
  same_owner = e.same_owner ∙ d.same_owner;
  same_prompt = e.same_prompt ∙ d.same_prompt;
  path = elim e.state_moves [
    | inl p ↦ subst (λ x. run.state ⟶* x) (sym p) d.path
    | inr b ↦ next d.path ((valid_iff_arrow mid.state run'.state).0 b)
  ];
}

-- Through any history of such events from a state that satisfies the invariant, a run that is there
-- stays there, with its id, owner and prompt, and its state follows the documented diagram.
pub Reach-Descends :
    {s t : RunManager} (r : String) (run : Run)
    → Inv s
    → Reach s t
    → get r s.repo ≡ some run
    → (run' : Run) × (get r t.repo ≡ some run') × Descends run run'
Reach-Descends r run v start e =
    (run, e, record { same_id = refl; same_owner = refl; same_prompt = refl; path = here })
Reach-Descends r run v (further {t} ev re f) e =
    let (mid, g, d) = Reach-Descends r run v re e in
    let good = step-IsGood t ev (Reach-Inv v re) f in
    found (get r (step t ev).repo) refl (extend run mid _ d (good.follows r mid g))
  where
    found :
        (o : Option Run)
        → get r (step t ev).repo ≡ o
        → DescendsTo run o
        → (run' : Run) × (get r (step t ev).repo ≡ some run') × Descends run run'
    found none p w = absurd w
    found (some run') p w = (run', p, w)
