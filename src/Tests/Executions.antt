-- ===== src/Tests/Executions.antt =====
-- The results about run-execution.service.ts at concrete inputs.
use text.Mathlib.TextLemmas as Text
use minerva.Base.{
  Option, ◌≤◌, ℕ, zero, suc, String, ◌≡◌, ◌≢◌, ◌⊎◌, refl, sym, ap, true, false, none, some, [],
  arith, includes,
}
use minerva.Base.Text.{trim}
use minerva.Dict.{get, set}
use minerva.Exec.{ok, err}
use minerva.Owner.{OwnerPrincipal, owner_key_from_principal, same_owner_principal}
use minerva.Run.{Run, cancelled, timed_out, is_terminal_state, is_valid_state_transition}
use minerva.Queue.Lanes.{lane}
use minerva.RunManager.{RunManager, require_run, release_lease, signal_cancellation, repo_update}
use minerva.RunManager.Operations as Manager
use minerva.RunManager.Invariant.{Inv}
use minerva.RunManager.Endings.{Holds}
use minerva.RunManager.Events.{cancels, step}
use minerva.RunManager.Histories.{step-IsGood}
use minerva.Sse.{run_cancelled, run_timed_out}
use minerva.Sse.Streams.{takes_writes}
use minerva.Execution.{RunExecutionService, ExecutionError, Moment, bad_request, thrown}
use minerva.Execution
use minerva.Execution.Operations.{
  CreateRunRequestBody, create_run, get_run, cancel_run, run_timer, attach_agent,
  complete_execution, fail_execution,
}
use minerva.Execution.Attempt.{Surroundings, execute_run, process_user_queue}
use minerva.Execution.Outcome.{Finished}
use minerva.Execution.Ends.{execute_run_lem}
use minerva.Execution.Rounds.{AllEnded, process_user_queue_lem}
use minerva.Execution.Admission.{Queued, create_run_lem}
use minerva.Execution.Requests.{stranger_lem}
use minerva.Execution.Notices.{Tells, cancel_tells}
use minerva.Execution.Races.{cancel_again, silent_timeout}
use minerva.Tests.Manager.{
  both_waiting, both_waiting-Inv, s0, s1, s2, s3, s1-Inv, s2-Inv, s3-Inv, lease1, handle1,
  r1_queued, r1_leased, r1_running,
}

abbrev at : ℕ → Moment
at now = record { condition = λ stream. takes_writes; now = now }

abbrev ann_principal : OwnerPrincipal
ann_principal = record { tenant_id = "legacy"; subject_id = "ann" }

abbrev words : ExecutionError → String
words (thrown message) = message
words _ = "error"

-- The agent fails.
abbrev surroundings : Surroundings
surroundings = record {
  health = record { healthy = true; provider = "openai"; error = "" };
  workspace = ok "w1";
  prepared = ok tt;
  events = [];
  answer = err "429 Too many requests";
  begun = at 3;
  ended = at 9;
}

r1_holds : Holds s2 "r1" r1_leased lease1
unfolding get
r1_holds = record { inv = s2-Inv; stored = refl; lease_token = refl; named = λ p. cc; lease = refl }

execute_run_lem_example :
    let outcome = execute_run (λ s. s) words r1_leased surroundings (Execution.new s2) in
    (outcome.0 ≡ ok tt) × Finished (Execution.new s2) outcome.1 "r1" "ann"
execute_run_lem_example =
    execute_run_lem (λ s. s) words (Execution.new s2) r1_leased lease1 surroundings r1_holds refl

-- Tokens of growing length.
abbrev token : ℕ → String
token zero = "t"
token (suc n) = String.◌∷◌ "t" (token n)

token-filled : (n : ℕ) → token n ≢ ""
token-filled zero p = Text.cons≢nil p
token-filled (suc n) p = Text.cons≢nil p

token-injective : (i j : ℕ) → token i ≡ token j → i ≡ j
token-injective zero zero p = refl
token-injective zero (suc j) p = absurd (token-filled j (sym (Text.tail-eq_of_cons-eq p)))
token-injective (suc i) zero p = absurd (token-filled i (Text.tail-eq_of_cons-eq p))
token-injective (suc i) (suc j) p = ap suc (token-injective i j (Text.tail-eq_of_cons-eq p))

process_user_queue_lem_example :
    let s = Execution.new both_waiting in
    let outcome =
      process_user_queue (λ s. s) words token (λ n. 10) (λ run. surroundings) 3 "ann" s in
    (outcome.0 ≡ ok true)
    × (lane outcome.1.run_manager.queue "ann" ≡ [])
    × AllEnded outcome.1.run_manager.repo (lane s.run_manager.queue "ann")
    × (get "ann" outcome.1.run_manager.lease_manager.leases ≡ none)
    × (includes "ann" outcome.1.processing_users ≡ false)
unfolding get
process_user_queue_lem_example =
    process_user_queue_lem (λ s. s) words token (λ n. 10) (λ run. surroundings) 3
      (Execution.new both_waiting) "ann" both_waiting-Inv refl refl refl token-filled
      token-injective (λ n. refl) (omega arith)

abbrev body : CreateRunRequestBody
body = record { agent_pack_id = some "coder "; prompt = some " fix it"; max_duration_ms = none }

-- `r3` is created while `r1` waits.
create_run_lem_example :
    let s = Execution.new s1 in
    let outcome = create_run ann_principal body "r3" (at 2) s in
    (((◌≡◌ {A = Option String} (some "fix it") none)
        ⊎ (◌≡◌ {A = Option String} (some "coder") none))
      × (message : String) × (outcome ≡ (err (bad_request message), s)))
    ⊎ ((run : Run) × (outcome.0 ≡ ok run)
        × (run.id ≡ "r3")
        × (run.owner ≡ ann_principal)
        × (run.user_id ≡ "ann")
        × (some run.prompt ≡ some "fix it")
        × (some run.agent_pack_id ≡ some "coder")
        × (run.max_duration_ms ≤ s.run_manager.config.max_timeout_ms)
        × Queued s outcome.1 run)
unfolding owner_key_from_principal trim
create_run_lem_example = create_run_lem (Execution.new s1) ann_principal body "r3" (at 2)

abbrev bob : OwnerPrincipal
bob = record { tenant_id = "legacy"; subject_id = "bob" }

stranger_lem_example :
    let s = Execution.new s1 in
    let t = Execution.new s0 in
    (get_run "r1" bob s ≡ ((get_run "r1" bob t).0, s))
    × (cancel_run "r1" bob none (at 2) s ≡ ((cancel_run "r1" bob none (at 2) t).0, s))
unfolding get same_owner_principal
stranger_lem_example =
    stranger_lem (Execution.new s1) (Execution.new s0) "r1" r1_queued bob none (at 2) refl refl refl
      refl

cancel_tells_example :
    let s = Execution.new s3 in
    let s' = (cancel_run "r1" ann_principal none (at 5) s).1 in
    Tells s.published s'.published "r1" run_cancelled
    ⊎ (Tells s.published s'.published "r1" run_timed_out
        × ◌≡◌ {A = String} "user_cancelled" "timeout")
unfolding get same_owner_principal is_terminal_state
cancel_tells_example =
    cancel_tells (Execution.new s3) "r1" r1_running ann_principal none (at 5) s3-Inv refl refl refl
      refl

-- `r1` is cancelled while it waits.
abbrev s_cancelled : RunManager
s_cancelled = step s1 (cancels "r1" none 2)

abbrev r1_cancelled : Run
r1_cancelled = record r1_queued {
  state = cancelled;
  queue_position = none;
  completed_at = some 2;
  error = some "cancelled";
}

s_cancelled-Inv : Inv s_cancelled
s_cancelled-Inv = (step-IsGood s1 (cancels "r1" none 2) s1-Inv tt).inv

stored_cancelled : get "r1" s_cancelled.repo ≡ some r1_cancelled
unfolding get step Manager.cancel_run require_run is_terminal_state Manager.remove_if_queued
    release_lease signal_cancellation Manager.transition_state is_valid_state_transition
    Manager.clear_if_terminal repo_update set Manager.transition_updates
stored_cancelled = refl

cancel_again_example :
    let s = Execution.new s_cancelled in
    let outcome = cancel_run "r1" ann_principal none (at 5) s in
    (outcome.0 ≡ ok r1_cancelled)
    × Tells s.published outcome.1.published "r1" run_cancelled
    × (outcome.1.run_manager ≡ s.run_manager)
unfolding same_owner_principal
cancel_again_example =
    cancel_again (Execution.new s_cancelled) "r1" r1_cancelled ann_principal none (at 5)
      s_cancelled-Inv stored_cancelled refl refl refl

silent_timeout_example :
    let s1' = (run_timer 0 (at 600) (Execution.new s3)).1 in
    let s2' = (attach_agent r1_running (ok tt) s1').1 in
    let resolved = complete_execution r1_running [] (at 700) s2' in
    let rejected = fail_execution (λ t. t) words r1_running (thrown "aborted") (at 700) s2' in
    ((run' : Run) × (get "r1" s2'.run_manager.repo ≡ some run') × (run'.state ≡ timed_out))
    × ((resolved.0 ≡ ok tt)
        × (resolved.1.run_manager ≡ s2'.run_manager)
        × (get "r1" resolved.1.sse_service.stream_controller.streams ≡ none)
        × (resolved.1.published ≡ []))
    × ((rejected.0 ≡ ok tt)
        × (rejected.1.run_manager ≡ s2'.run_manager)
        × (rejected.1.sse_service ≡ (Execution.new s3).sse_service)
        × (rejected.1.published ≡ []))
unfolding get
silent_timeout_example =
    silent_timeout (λ t. t) words (Execution.new s3) handle1 r1_running (at 600) (at 700) []
      (thrown "aborted") s3-Inv refl refl (omega arith) refl
