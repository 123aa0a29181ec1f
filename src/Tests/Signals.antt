-- ===== src/Tests/Signals.antt =====
-- Cancellation, timeouts and the state machine at concrete inputs.
use minerva.Base.{List, [], ◌∷◌, String, ◌≡◌, ◌≢◌, refl, eq_iff, some, arith}
use minerva.Dict.{get, set, delete}
use minerva.Cancellation
use minerva.Cancellation.{
  CancellationRegistry, create, cancel, is_cancelled, load, cancel_context, new_context, remove,
}
use minerva.Cancellation.Signals.{IsAllocated, create-IsAllocated}
use minerva.Timeout
use minerva.Timeout.{TimeoutManager, TimeoutHandle, schedule, fire, clear}
use minerva.Timeout.{start as start_timer}
use minerva.Timeout.Timers.{IsLinked, empty-IsLinked, schedule-IsLinked}
use minerva.Run.{RunState, completed, leased, queued, running, is_valid_state_transition}
use minerva.Run.Transitions.{IsLife}

-- A context for `r1`, then one for `r2`.
abbrev two_contexts : CancellationRegistry
two_contexts = (create (create Cancellation.empty "r1").0 "r2").0

empty-IsAllocated : IsAllocated Cancellation.empty
unfolding get
empty-IsAllocated = record { below = λ w i h. cc; apart = λ w w' i h h'. cc }

two_contexts-IsAllocated : IsAllocated two_contexts
two_contexts-IsAllocated =
    create-IsAllocated (create Cancellation.empty "r1").0 "r2"
      (create-IsAllocated Cancellation.empty "r1" empty-IsAllocated)

abbrev r1 : String
r1 = "r1"

apart : r1 ≢ "r2"
apart p = absurd (ground (arith, eq_iff r1 "r2", p))

-- A timeout for `r1` at time 15.
abbrev one_timeout : TimeoutManager
one_timeout = schedule Timeout.empty "r1" 10 5

abbrev handle : TimeoutHandle
handle = record { run_id = "r1"; timer = 0; scheduled_at = 5; timeout_at = 15 }

one_timeout-IsLinked : IsLinked one_timeout
one_timeout-IsLinked = schedule-IsLinked Timeout.empty "r1" 10 5 empty-IsLinked

entry_of_r1 : get "r1" one_timeout.timeouts ≡ some handle
unfolding schedule clear start_timer get set delete
entry_of_r1 = refl

fired_at_15 : (fire one_timeout 0 15).1 ≡ some "r1"
unfolding fire schedule clear start_timer get set delete
fired_at_15 = refl

restarted_fires : (fire (schedule one_timeout "r1" 10 12) 1 22).1 ≡ some "r1"
unfolding fire schedule clear start_timer get set delete
restarted_fires = refl

abbrev life : List RunState
life = leased ∷ running ∷ completed ∷ []

life_ok : IsLife queued life
unfolding is_valid_state_transition
life_ok = (refl, (refl, (refl, tt)))
