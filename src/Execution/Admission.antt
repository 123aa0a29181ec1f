-- ===== src/Execution/Admission.antt =====
-- services/orchestrator/src/runtime/run-execution.service.ts: what `createRun` does with a request.
use mathlib.Core.Option
use minerva.Base.{
  String, ◌≡◌, refl, ap, ◌∙◌, ◌≤◌, true, none, some, [], ◌∷◌, ◌++◌, if◌then◌else◌, truthy, inl, inr,
  ◌⊎◌, Bool-cases, Option-cases, or_else, includes, length, eq_refl, arith, not, includes-append,
  List,
}
use minerva.Base.Text.{trim}
use minerva.Dict.{get}
use minerva.Exec.{ok, err}
use minerva.Owner.{OwnerPrincipal, owner_key_from_principal}
use minerva.Run.{Run, CreateRunInput, queued}
use minerva.Queue.Lanes.{lane, lane-enqueue, enqueue_position}
use minerva.RunManager.Operations.{new_run}
use minerva.RunManager.Operations as Manager
use minerva.RunManager.Admission.{positioned, created, get-created, create_lem}
use minerva.Sse.{run_queued}
use minerva.Execution.{bad_request, RunExecutionService, Moment, publish, run_queued_payload}
use minerva.Execution.Operations.{
  CreateRunRequestBody, create_run, admit_run, announce_run, claim_user,
}
use minerva.Execution.Outcome.{manage_eq}
use minerva.Execution.Requests.{create_run_refused}

-- The state after `createRun` in which `run` waits behind the runs of its user.
pub record Queued (s s' : RunExecutionService) (run : Run) : Type 0 where
  pub stored : get run.id s'.run_manager.repo ≡ some run
  pub state : run.state ≡ queued
  pub position : run.queue_position ≡ some (length (lane s.run_manager.queue run.user_id))
  pub waits :
      lane s'.run_manager.queue run.user_id ≡ lane s.run_manager.queue run.user_id ++ run.id ∷ []
  pub told :
      s'.published
      ≡ s.published
        ++ record {
          run_id = run.id;
          type = run_queued;
          payload = run_queued_payload (length (lane s.run_manager.queue run.user_id));
        }
          ∷ []
  pub processed : includes run.user_id s'.processing_users ≡ true

-- The users that are processed once `u` is claimed.
abbrev claimants : String → List String → List String
claimants u users = if includes u users then users else users ++ u ∷ []

claimed : (u : String) (users : List String) → includes u (claimants u users) ≡ true
claimed u users = elim (Bool-cases (includes u users)) [
  | inl e ↦ rw e e
  | inr e ↦ rw e (ground (arith, includes-append u users (u ∷ []), eq_refl u))
]

claim_lem :
    (u : String) (s : RunExecutionService)
    → claim_user u s ≡ (
      ok (not (includes u s.processing_users)),
      record s { processing_users = claimants u s.processing_users },
    )
unfolding claim_user
claim_lem u s = elim (Bool-cases (includes u s.processing_users)) [
  | inl e ↦ rw e refl
  | inr e ↦ rw e refl
]

announced :
    (s : RunExecutionService) (run : Run) (m : Moment)
    → let payload = run_queued_payload (or_else run.queue_position 0) in
      let told = publish m run.id run_queued payload s in
      announce_run run m s
      ≡ (ok run, record told { processing_users = claimants run.user_id told.processing_users })
unfolding announce_run
announced s run m =
    let payload = run_queued_payload (or_else run.queue_position 0) in
    rw (claim_lem run.user_id (publish m run.id run_queued payload s)) refl

-- A run that was filed and announced is queued.
announced-Queued :
    (s : RunExecutionService) (run : Run) (m : Moment)
    → run.state ≡ queued
    → let placed = positioned s.run_manager run in
      let told =
        publish m run.id run_queued
          (run_queued_payload (or_else placed.queue_position 0))
          (record s { run_manager = created s.run_manager run }) in
      Queued s
        (record told { processing_users = claimants run.user_id told.processing_users })
        placed
unfolding publish positioned
announced-Queued s run m q = record {
  stored = get-created s.run_manager run run.id ∙ rw (eq_refl run.id) refl;
  state = q;
  position = ap some (enqueue_position s.run_manager.queue run.id run.user_id);
  waits =
      lane-enqueue s.run_manager.queue run.id run.user_id run.user_id
      ∙ rw (eq_refl run.user_id) refl;
  told = rw (enqueue_position s.run_manager.queue run.id run.user_id) refl;
  processed = claimed run.user_id s.processing_users;
}

-- Where no other call comes between its two parts, `createRun` either refuses a request whose prompt
-- or pack is missing or blank, and changes nothing; or it returns a run of the owner with the prompt
-- and the pack, without the white space around them, and a duration within the limit. This run is
-- then stored and queued with the number of runs ahead of it as its position, it stands at the end of
-- its user's queue, one event `run_queued` with that position is published, and its user is among
-- those whose queue is worked off.
pub create_run_lem :
    (s : RunExecutionService) (owner : OwnerPrincipal) (body : CreateRunRequestBody) (r : String)
    (m : Moment)
    → let outcome = create_run owner body r m s in
      let prompt = truthy (Option.map trim body.prompt) in
      let agent_pack_id = truthy (Option.map trim body.agent_pack_id) in
      (((prompt ≡ none) ⊎ (agent_pack_id ≡ none))
        × (message : String) × (outcome ≡ (err (bad_request message), s)))
      ⊎ ((run : Run) × (outcome.0 ≡ ok run)
          × (run.id ≡ r)
          × (run.owner ≡ owner)
          × (run.user_id ≡ owner_key_from_principal owner)
          × (some run.prompt ≡ prompt)
          × (some run.agent_pack_id ≡ agent_pack_id)
          × (run.max_duration_ms ≤ s.run_manager.config.max_timeout_ms)
          × Queued s outcome.1 run)
unfolding create_run admit_run positioned new_run
create_run_lem s owner body r m = elim (Option-cases (truthy (Option.map trim body.prompt))) [
  | inl e ↦
      let (message, refused) = create_run_refused s owner body r m (inl e) in
      inl (inl e, message, refused)
  | inr (prompt, e) ↦ elim (Option-cases (truthy (Option.map trim body.agent_pack_id))) [
    | inl f ↦
        let (message, refused) = create_run_refused s owner body r m (inr f) in
        inl (inr f, message, refused)
    | inr (pack, f) ↦
        let input : CreateRunInput = record {
          owner = some owner;
          user_id = none;
          agent_pack_id = pack;
          prompt = prompt;
          max_duration_ms = body.max_duration_ms;
        } in
        let run = new_run s.run_manager.config input r m.now in
        let placed = positioned s.run_manager run in
        let filed =
          manage_eq (Manager.create_run input r m.now) s _ _
            (create_lem s.run_manager input r m.now) in
        rw (e, f, filed, announced (record s { run_manager = created s.run_manager run }) placed m)
          (inr (
            placed,
            refl,
            refl,
            refl,
            refl,
            refl,
            refl,
            omega arith,
            announced-Queued s run m refl,
          ))
  ]
]
