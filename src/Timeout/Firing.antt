-- ===== src/Timeout/Firing.antt =====
-- services/timeout.ts: when a timer fires, and for which run.
use minerva.Base.{
  ℕ, ◌+◌, ◌<◌, ◌≤◌, String, ◌≡◌, ◌≢◌, Option, none, some, if◌then◌else◌, leb, arith, eq_iff,
  Option-cases, Bool-cases, inl, inr, subst, ◌∙◌, ◌∙◌,
}
use minerva.Dict.{get, delete, get-set, get-delete}
use minerva.Timeout.{
  TimeoutHandle, Timer, TimeoutManager, clear_timer, find_timer, clear, start, schedule, fire,
}
use minerva.Timeout.Timers.{IsLinked, drop-IsLinked, get-clear, clear-IsLinked, schedule-IsLinked}

-- `fire` by cases on the timer.
pub fire_cases {ℓ} :
    (P : TimeoutManager × Option String → Type ℓ) (m : TimeoutManager) (i now : ℕ)
    → P (m, none)
    → ((t : Timer)
        → find_timer i m.pending ≡ some t
        → t.due ≤ now
        → P (
          record m { pending = clear_timer i m.pending; timeouts = delete t.run_id m.timeouts },
          some t.run_id,
        ))
    → P (fire m i now)
unfolding fire
fire_cases P m i now idle due = elim (Option-cases (find_timer i m.pending)) [
  | inl e ↦ rw (e, fire) idle
  | inr (t, e) ↦ elim (Bool-cases (leb t.due now)) [
    | inl b ↦ rw (e, fire) (rw b (due t e (ground arith)))
    | inr b ↦ rw (e, fire) (rw b idle)
  ]
]

pub fired-IsLinked :
    (m : TimeoutManager) (i : ℕ) (t : Timer)
    → IsLinked m
    → find_timer i m.pending ≡ some t
    → IsLinked
        (record m { pending = clear_timer i m.pending; timeouts = delete t.run_id m.timeouts })
fired-IsLinked m i t v e =
    let (h, f, g) = v.entered i t e in
    subst
      (λ k.
        IsLinked
          (record m { pending = clear_timer k m.pending; timeouts = delete t.run_id m.timeouts }))
      g (drop-IsLinked m v t.run_id h f)

-- Running a timer keeps entries and timers together.
pub fire-IsLinked : (m : TimeoutManager) (i now : ℕ) → IsLinked m → IsLinked (fire m i now).0
fire-IsLinked m i now v = fire_cases (λ p. IsLinked p.0) m i now v λ t e _. fired-IsLinked m i t v e

pub fire_due :
    (m : TimeoutManager) (i now : ℕ) (t : Timer)
    → find_timer i m.pending ≡ some t
    → t.due ≤ now
    → fire m i now ≡ (
      record m { pending = clear_timer i m.pending; timeouts = delete t.run_id m.timeouts },
      some t.run_id,
    )
unfolding fire
fire_due m i now t e due = ground arith

-- Where entries and timers are linked, the timer of a run's entry fires, for that run, exactly from the time of the entry on; the entry is
-- kept before and gone then.
pub fire_on_time :
    (m : TimeoutManager) (r : String) (h : TimeoutHandle) (now : ℕ)
    → IsLinked m
    → get r m.timeouts ≡ some h
    → ((fire m h.timer now).1 ≡ (if leb h.timeout_at now then some r else none))
      × (get r (fire m h.timer now).0.timeouts ≡ (if leb h.timeout_at now then none else some h))
unfolding fire
fire_on_time m r h now v e = (
  ground (arith, v.armed r h e),
  ground (arith, e, v.armed r h e, get-delete r r m.timeouts, eq_iff r r),
)

pub fire_early :
    (m : TimeoutManager) (r : String) (h : TimeoutHandle) (now : ℕ)
    → IsLinked m
    → get r m.timeouts ≡ some h
    → now < h.timeout_at
    → fire m h.timer now ≡ (m, none)
unfolding fire
fire_early m r h now v e early = ground (arith, v.armed r h e)

-- What fires is due, and is the timer of the run's entry.
pub fired_entry :
    (m : TimeoutManager) (i now : ℕ) (r : String)
    → IsLinked m
    → (fire m i now).1 ≡ some r
    → (h : TimeoutHandle) × (get r m.timeouts ≡ some h) × (h.timer ≡ i) × (h.timeout_at ≤ now)
unfolding fire
fired_entry m i now r v =
    fire_cases (λ p. p.1 ≡ some r → Fired) m i now (λ e. cc)
      λ t e due q.
        let (h, f, g) = v.entered i t e in
        let s : t.run_id ≡ r = ground arith in
        (
          h,
          subst (λ x. get x m.timeouts ≡ some h) s f,
          g,
          ground (arith, v.armed t.run_id h f, g, e, due),
        )
  where
    Fired : Type 0
    Fired = (h : TimeoutHandle) × (get r m.timeouts ≡ some h) × (h.timer ≡ i) × (h.timeout_at ≤ now)

-- A run without an entry does not time out, whichever timer runs and whenever.
pub unscheduled_never_fires :
    (m : TimeoutManager) (r : String) (i now : ℕ)
    → IsLinked m
    → get r m.timeouts ≡ none
    → (fire m i now).1 ≢ some r
unscheduled_never_fires m r i now v e f = let (h, g, _, _) = fired_entry m i now r v f in cc

-- Where entries and timers are linked, after `clear` no timer, whenever it runs, fires for the run.
pub cleared_never_fires :
    (m : TimeoutManager) (r : String) (i now : ℕ)
    → IsLinked m
    → (fire (clear m r).0 i now).1 ≢ some r
cleared_never_fires m r i now v =
    unscheduled_never_fires (clear m r).0 r i now (clear-IsLinked m v r)
      (ground (arith, get-clear m r r, eq_iff r r))

-- Where entries and timers are linked, a run whose timer has just fired does not time out again, whichever timer runs next and
-- whenever.
pub fires_once :
    (m : TimeoutManager) (r : String) (i now j later : ℕ)
    → IsLinked m
    → (fire m i now).1 ≡ some r
    → (fire (fire m i now).0 j later).1 ≢ some r
fires_once m r i now j later v f =
    let (h, e, g, due) = fired_entry m i now r v f in
    unscheduled_never_fires (fire m i now).0 r j later (fire-IsLinked m i now v) (
      subst (λ k. get r (fire m k now).0.timeouts ≡ none) g
        ((fire_on_time m r h now v e).1 ∙ ground arith))

-- Where entries and timers are linked, after `schedule` a timer that fires for the run, even one that was started earlier, fires no earlier
-- than the delay from then.
pub schedule_restarts :
    (m : TimeoutManager) (r : String) (delay now i later : ℕ)
    → IsLinked m
    → (fire (schedule m r delay now) i later).1 ≡ some r
    → now + delay ≤ later
unfolding schedule start
schedule_restarts m r delay now i later v f =
    let (h, e, _, due) =
      fired_entry (schedule m r delay now) i later r (schedule-IsLinked m r delay now v) f in
    let e' = rw get-set at e in ground (arith, e', eq_iff r r, due)
