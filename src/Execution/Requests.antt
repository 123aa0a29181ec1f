-- ===== src/Execution/Requests.antt =====
-- services/orchestrator/src/runtime/run-execution.service.ts: what the requests of a client get.
use mathlib.Core.Option
use minerva.Base.{
  String, ◌≡◌, refl, ap, ◌∙◌, false, Option, none, some, if◌then◌else◌, truthy, inl, inr, ◌⊎◌,
  Bool-cases, Option-cases,
}
use minerva.Base.Text.{trim}
use minerva.Dict.{get}
use minerva.Exec.{ok, err}
use minerva.Owner.{OwnerPrincipal, same_owner_principal}
use minerva.Run.{Run}
use minerva.Execution.{bad_request, RunExecutionService, Moment}
use minerva.Execution.Operations.{
  CreateRunRequestBody, create_run, get_run, missing, assert_owner, cancel_run,
}
use minerva.Execution.Outcome.{get_run_lem}

-- A request without a prompt or a pack, or with one of white space alone, is refused and changes
-- nothing.
pub create_run_refused :
    (s : RunExecutionService) (owner : OwnerPrincipal) (body : CreateRunRequestBody) (r : String)
    (m : Moment)
    → (truthy (Option.map trim body.prompt) ≡ none)
      ⊎ (truthy (Option.map trim body.agent_pack_id) ≡ none)
    → (message : String) × (create_run owner body r m s ≡ (err (bad_request message), s))
unfolding create_run
create_run_refused s owner body r m h = elim (Option-cases (truthy (Option.map trim body.prompt))) [
  | inl e ↦ ("prompt is required", rw e refl)
  | inr (prompt, e) ↦ elim h [ inl f ↦ cc | inr f ↦ ("agentPackId is required", rw (e, f) refl) ]
]

module _ (s : RunExecutionService) (r : String) (owner : OwnerPrincipal) where
  get_run_absent : get r s.run_manager.repo ≡ none → get_run r owner s ≡ (err (missing r), s)
  unfolding get_run
  get_run_absent f = rw (get_run_lem r s, f) refl

  pub get_run_found :
      (run : Run)
      → get r s.run_manager.repo ≡ some run
      → get_run r owner s
        ≡ ((if same_owner_principal run.owner owner then ok run else err (missing run.id)), s)
  unfolding get_run assert_owner
  get_run_found run e =
      rw (get_run_lem r s, e)
        (elim (Bool-cases (same_owner_principal run.owner owner)) [
          | inl f ↦ rw f refl
          | inr f ↦ rw f refl
        ])

-- To a client that does not own the run, `getRun` and `cancelRun` answer as they do in a state that
-- has no run of this id, and change nothing.
pub stranger_lem :
    (s t : RunExecutionService) (r : String) (run : Run) (owner : OwnerPrincipal)
    (reason : Option String) (m : Moment)
    → get r s.run_manager.repo ≡ some run
    → run.id ≡ r
    → same_owner_principal run.owner owner ≡ false
    → get r t.run_manager.repo ≡ none
    → (get_run r owner s ≡ ((get_run r owner t).0, s))
      × (cancel_run r owner reason m s ≡ ((cancel_run r owner reason m t).0, s))
unfolding cancel_run
stranger_lem s t r run owner reason m e same n f =
    let here : get_run r owner s ≡ (err (missing r), s) =
      get_run_found s r owner run e ∙ (rw n refl ∙ ap (λ k. (err (missing k), s)) same) in
    let there = get_run_absent t r owner f in (rw (here, there) refl, rw (here, there) refl)
