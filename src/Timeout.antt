-- ===== src/Timeout.antt =====
-- services/orchestrator/src/services/timeout.ts: one timer for each run. The event loop's pending
-- timers are part of the state; `fire` is the event loop running a timer that is due.
pub mod Timers
pub mod Firing
use minerva.Base.{
  ℕ, suc, ◌+◌, ◌*◌, String, Bool, true, false, Option, none, some, List, [], ◌∷◌, if◌then◌else◌,
  nat_eq, leb,
}
use minerva.Dict.{Dict, get, set, delete, keys, values, has}

pub record TimeoutHandle : Type 0 where
  pub run_id : String
  pub scheduled_at : ℕ
  pub timeout_at : ℕ
  -- the handle of `setTimeout`
  pub timer : ℕ

-- A pending timer, which runs the callback of its run.
pub record Timer : Type 0 where
  pub id : ℕ
  pub run_id : String
  pub due : ℕ

pub record TimeoutManager : Type 0 where
  pub timeouts : Dict TimeoutHandle
  pub pending : List Timer
  pub next_timer : ℕ

abbrev pub empty : TimeoutManager
empty = record { timeouts = []; pending = []; next_timer = 0 }

abbrev pub default_run_timeout_ms : ℕ
default_run_timeout_ms = 10 * 60 * 1000

abbrev pub max_run_timeout_ms : ℕ
max_run_timeout_ms = 60 * 60 * 1000

-- `clearTimeout`
abbrev pub clear_timer : ℕ → List Timer → List Timer
clear_timer i [] = []
clear_timer i (t ∷ ts) = let rest = clear_timer i ts in if nat_eq t.id i then rest else t ∷ rest

abbrev pub find_timer : ℕ → List Timer → Option Timer
find_timer i [] = none
find_timer i (t ∷ ts) = if nat_eq t.id i then some t else find_timer i ts

unfoldable pub clear : TimeoutManager → String → TimeoutManager × Bool
clear m run_id = elim (get run_id m.timeouts) [
  | none ↦ (m, false)
  | some handle ↦ (
    record m { pending = clear_timer handle.timer m.pending; timeouts = delete run_id m.timeouts },
    true,
  )
]

-- `new TimeoutHandleImpl` and the entry for it
unfoldable pub start : TimeoutManager → String → ℕ → ℕ → TimeoutManager
start m run_id delay_ms now = record {
  timeouts =
      set run_id
        (record {
          run_id = run_id;
          scheduled_at = now;
          timeout_at = now + delay_ms;
          timer = m.next_timer;
        })
        m.timeouts;
  pending = record { id = m.next_timer; run_id = run_id; due = now + delay_ms } ∷ m.pending;
  next_timer = suc m.next_timer;
}

unfoldable pub schedule : TimeoutManager → String → ℕ → ℕ → TimeoutManager
schedule m run_id delay_ms now = start (clear m run_id).0 run_id delay_ms now

-- The timer's callback drops the entry of its run; the run comes back, for `onTimeout`.
unfoldable pub fire : TimeoutManager → ℕ → ℕ → TimeoutManager × Option String
fire m timer now = elim (find_timer timer m.pending) [
  | none ↦ (m, none)
  | some t ↦
      if leb t.due now
      then (
        record m { pending = clear_timer timer m.pending; timeouts = delete t.run_id m.timeouts },
        some t.run_id,
      )
      else (m, none)
]

unfoldable pub is_scheduled : TimeoutManager → String → Bool
is_scheduled m run_id = has run_id m.timeouts

unfoldable pub get_timeout_at : TimeoutManager → String → Option ℕ
get_timeout_at m run_id = elim (get run_id m.timeouts) [ none ↦ none | some h ↦ some h.timeout_at ]

clear_each : List TimeoutHandle → List Timer → List Timer
clear_each [] ts = ts
clear_each (h ∷ hs) ts = clear_each hs (clear_timer h.timer ts)

unfoldable pub clear_all : TimeoutManager → TimeoutManager
unfolding clear_each
clear_all m = record m { pending = clear_each (values m.timeouts) m.pending; timeouts = [] }

unfoldable pub get_scheduled_run_ids : TimeoutManager → List String
get_scheduled_run_ids m = keys m.timeouts
