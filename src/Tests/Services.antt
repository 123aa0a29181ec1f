-- ===== src/Tests/Services.antt =====
-- The services of services/orchestrator/src/services at concrete inputs.
use minerva.Base.{
  String, ◌+◌, ◌≡◌, ◌≢◌, refl, eq_iff, none, some, if◌then◌else◌, ltb, arith, IsDistinct,
}
use minerva.Dict.{get, set, keys}
use minerva.Queue
use minerva.Queue.{RunQueue, enqueue, dequeue, remove, get_position}
use minerva.Queue.Invariant.{IsWellFormed, empty-IsWellFormed, enqueue-IsWellFormed}
use minerva.Queue.Positions.{dequeue_times, served_in_turn}
use minerva.Lease
use minerva.Lease.{
  Lease, LeaseManager, acquire, release, new_lease, get_active_run, cleanup_expired,
}
use minerva.Lease.Invariant.{IsConsistent, empty-IsConsistent, acquire-IsConsistent}
use minerva.Lease.Exclusion.{acquire-exclusive}

-- Two runs of `ann` wait.
abbrev one_waiting : RunQueue
one_waiting = (enqueue Queue.empty "r1" "ann").0

abbrev two_waiting : RunQueue
two_waiting = (enqueue one_waiting "r2" "ann").0

one_waiting-IsWellFormed : IsWellFormed one_waiting
unfolding get set
one_waiting-IsWellFormed = enqueue-IsWellFormed Queue.empty empty-IsWellFormed "r1" "ann" refl

two_waiting-IsWellFormed : IsWellFormed two_waiting
unfolding enqueue get set
two_waiting-IsWellFormed = enqueue-IsWellFormed one_waiting one_waiting-IsWellFormed "r2" "ann" refl

owner_of_r2 : get "r2" two_waiting.run_to_user ≡ some "ann"
unfolding enqueue get set
owner_of_r2 = refl

abbrev ann : String
ann = "ann"

named : ann ≢ ""
named p = absurd (ground (arith, eq_iff ann "", p))

position_of_r2 : get_position two_waiting "r2" ≡ some 1
unfolding get_position enqueue get set
position_of_r2 = refl

served_in_turn_example : (dequeue (dequeue_times 1 two_waiting "ann") "ann").1 ≡ some "r2"
served_in_turn_example =
    served_in_turn 1 two_waiting "r2" "ann" two_waiting-IsWellFormed owner_of_r2 named
      position_of_r2

-- The lease of `ann`, from time 5 to 15.
abbrev one_lease : LeaseManager
one_lease = (acquire Lease.empty "ann" "r1" 10 "t1" 5).0

one_lease-IsConsistent : IsConsistent one_lease
unfolding get set
one_lease-IsConsistent =
    acquire-IsConsistent Lease.empty empty-IsConsistent "ann" "r1" "t1" 10 5 refl

lease_of_ann : get "ann" one_lease.leases ≡ some (new_lease "r1" "t1" 10 5)
unfolding acquire get set
lease_of_ann = refl

one_user : IsDistinct (keys one_lease.leases)
unfolding acquire get set keys
one_user = (refl, tt)

acquire-exclusive_example :
    ((acquire one_lease "ann" "r2" 10 "t2" 9).1
      ≡ (if ltb 9 (5 + 10) then none else some (new_lease "r2" "t2" 10 9)))
    × (get "ann" (acquire one_lease "ann" "r2" 10 "t2" 9).0.leases
        ≡ some (if ltb 9 (5 + 10) then new_lease "r1" "t1" 10 5 else new_lease "r2" "t2" 10 9))
unfolding get set
acquire-exclusive_example = acquire-exclusive Lease.empty "ann" "r1" "t1" 10 5 "r2" "t2" 10 9 refl
