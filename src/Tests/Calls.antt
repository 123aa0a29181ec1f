-- ===== src/Tests/Calls.antt =====
-- The results about run-manager.ts at concrete inputs.
use minerva.Base.{
  String, ◌≡◌, ◌≢◌, ◌≤◌, refl, eq_iff, true, none, some, [], ◌∷◌, ◌++◌, ◌==◌, if◌then◌else◌, arith,
  length, tail, inr, false, erase, includes,
}
use minerva.Dict.{get}
use minerva.Exec.{ok}
use minerva.Run.{queued, Run, leased, running, cancelled, is_active_state, is_terminal_state}
use minerva.Lease.Exclusion.{live_lease}
use minerva.Queue.Lanes.{lane}
use minerva.RunManager.Operations.{create_run, new_run, acquire_next_run, cancel_run}
use minerva.RunManager.Acquire.{granted}
use minerva.RunManager.Events.{acquires, starts, step}
use minerva.RunManager.Steps.{IsGood}
use minerva.RunManager.Histories.{step-IsGood, Reach, start, further, Reach-Descends, Descends}
use minerva.RunManager.Outcomes.{
  create_run_outcome, acquire_next_run_outcome, acquire_next_run_waits, two_active_runs,
  cancel_run_outcome,
}
use minerva.RunManager.Races.{acquire_during_cancel, lost_run}
use minerva.Tests.Manager.{
  both_waiting, both_waiting-Inv, ann-named, input, s1, s3, s4, s1-Inv, s4-Inv, t1-IsFresh,
  r1_queued, r1_running,
}

step-IsGood_example : IsGood s1 (step s1 (acquires "ann" "t1" 2))
step-IsGood_example = step-IsGood s1 (acquires "ann" "t1" 2) s1-Inv t1-IsFresh

abbrev history : Reach s1 (step (step s1 (acquires "ann" "t1" 2)) (starts "r1" 3))
history = further (starts "r1" 3) (further (acquires "ann" "t1" 2) start t1-IsFresh) tt

stored_r1 : get "r1" s1.repo ≡ some r1_queued
unfolding get
stored_r1 = refl

Reach-Descends_example :
    (run' : Run) × (get "r1" (step (step s1 (acquires "ann" "t1" 2)) (starts "r1" 3)).repo
      ≡ some run')
    × Descends r1_queued run'
Reach-Descends_example = Reach-Descends "r1" r1_queued s1-Inv history stored_r1

create_run_outcome_example :
    let run = new_run s3.config input "r2" 4 in
    let s' = (create_run input "r2" 4 s3).1 in
    ((create_run input "r2" 4 s3).0
      ≡ ok (record run { queue_position = some (length (lane s3.queue run.user_id)) }))
    × (run.max_duration_ms ≤ s3.config.max_timeout_ms)
    × (lane s'.queue "ann" ≡ (
        if run.user_id == "ann"
        then lane s3.queue run.user_id ++ "r2" ∷ []
        else lane s3.queue "ann"))
create_run_outcome_example = create_run_outcome s3 input "r2" "ann" 4

abbrev r1 : String
r1 = "r1"

r1-named : r1 ≢ ""
r1-named p = absurd (ground (arith, eq_iff r1 "", p))

abbrev r2 : String
r2 = "r2"

r2-named : r2 ≢ ""
r2-named p = absurd (ground (arith, eq_iff r2 "", p))

acquire_next_run_outcome_example :
    let s' = (acquire_next_run "ann" "t1" 2 s1).1 in
    (run : Run) × ((acquire_next_run "ann" "t1" 2 s1).0 ≡ ok (some run))
    × (get "r1" s'.repo ≡ some run)
    × (run.state ≡ leased)
    × (run.user_id ≡ "ann")
    × (lane s'.queue "ann" ≡ tail (lane s1.queue "ann"))
    × (get "ann" s'.lease_manager.leases ≡ some (granted s1 "r1" "t1" 2))
unfolding get
acquire_next_run_outcome_example =
    acquire_next_run_outcome s1 "ann" "t1" "r1" 2 s1-Inv refl r1-named refl

lease_lasts : live_lease s4.lease_manager "ann" 100 ≢ none
unfolding get
lease_lasts p = cc

acquire_next_run_waits_example : acquire_next_run "ann" "t2" 100 s4 ≡ (ok none, s4)
acquire_next_run_waits_example = acquire_next_run_waits s4 "ann" "t2" 100 (inr lease_lasts)

two_active_runs_example :
    let s' = (acquire_next_run "ann" "t2" 40000 s4).1 in
    (run : Run) × (get "r2" s'.repo ≡ some run)
    × (is_active_state run.state ≡ true)
    × (run.user_id ≡ "ann")
    × (get "r1" s'.repo ≡ some r1_running)
    × (is_active_state running ≡ true)
unfolding get
two_active_runs_example =
    two_active_runs s4 "ann" "t2" "r2" "r1" 40000 r1_running s4-Inv refl r2-named refl refl refl
      refl

cancel_run_outcome_example :
    let s' = (cancel_run "r1" none 10 s4).1 in
    (run' : Run) × ((cancel_run "r1" none 10 s4).0 ≡ ok run')
    × (get "r1" s'.repo ≡ some run')
    × (run'.state ≡ cancelled)
    × (run'.completed_at ≡ some 10)
    × (get "r1" s'.queue.run_to_user ≡ none)
    × ((w : String)
        → (lane s'.queue w ≡ erase "r1" (lane s4.queue w))
          × (includes "r1" (lane s'.queue w) ≡ false))
    × (get "r1" s'.timeout_manager.timeouts ≡ none)
unfolding get is_terminal_state
cancel_run_outcome_example = cancel_run_outcome s4 "r1" r1_running none 10 s4-Inv refl refl

abbrev t1 : String
t1 = "t1"

lost_run_example :
    let s' = (acquire_during_cancel "ann" "r1" "t1" 5 both_waiting).1 in
    (run1 : Run) × (get "r1" s'.repo ≡ some run1)
    × (run1.state ≡ leased)
    × ((run2 : Run) × (get "r2" s'.repo ≡ some run2)
        × (run2.state ≡ queued)
        × (lane s'.queue "ann" ≡ [])
        × (get "r2" s'.queue.run_to_user ≡ none))
unfolding get
lost_run_example =
    lost_run both_waiting "ann" "r1" "t1" 5 "r2" [] both_waiting-Inv refl ann-named refl
