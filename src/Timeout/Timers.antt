-- ===== src/Timeout/Timers.antt =====
-- services/timeout.ts: the entries of the manager and the pending timers of the event loop.
use minerva.Base.{
  ℕ, ◌+◌, ◌<◌, String, ◌≡◌, false, none, some, List, [], ◌∷◌, if◌then◌else◌, nat_eq, arith, eq_iff,
  ◌==◌, Option-cases, Bool-cases, inl, inr,
}
use minerva.Dict.{get, delete, get-set, get-delete}
use minerva.Timeout.{
  TimeoutHandle, Timer, TimeoutManager, empty, clear_timer, find_timer, clear, start, schedule,
}

find_timer-clear_timer :
    (i j : ℕ) (ts : List Timer)
    → find_timer j (clear_timer i ts) ≡ (if nat_eq i j then none else find_timer j ts)
find_timer-clear_timer i j [] = ground arith
find_timer-clear_timer i j (t ∷ ts) = ground (arith, find_timer-clear_timer i j ts)

-- The timer that an entry stands for.
abbrev pub timer_of : String → TimeoutHandle → Timer
timer_of r h = record { id = h.timer; run_id = r; due = h.timeout_at }

pub record IsLinked (m : TimeoutManager) : Type 0 where
  -- an entry has its timer pending
  pub armed :
      (r : String) (h : TimeoutHandle)
      → get r m.timeouts ≡ some h
      → find_timer h.timer m.pending ≡ some (timer_of r h)
  -- a pending timer is that of its run's entry
  pub entered :
      (i : ℕ) (t : Timer)
      → find_timer i m.pending ≡ some t
      → (h : TimeoutHandle) × (get t.run_id m.timeouts ≡ some h) × (h.timer ≡ i)
  -- timers are numbered below the next
  pub numbered : (i : ℕ) (t : Timer) → find_timer i m.pending ≡ some t → i < m.next_timer

pub empty-IsLinked : IsLinked empty
unfolding get
empty-IsLinked = record { armed = λ r h e. cc; entered = λ i t e. cc; numbered = λ i t e. cc }

-- Dropping an entry with its timer.
module _ (m : TimeoutManager) (v : IsLinked m) where
  pub drop-IsLinked :
      (r : String) (h : TimeoutHandle)
      → get r m.timeouts ≡ some h
      → IsLinked
          (record m { pending = clear_timer h.timer m.pending; timeouts = delete r m.timeouts })
  drop-IsLinked r h e = record {
    armed = λ w k p. ground (
      arith,
      p,
      e,
      get-delete r w m.timeouts,
      v.armed w k,
      v.armed r h e,
      find_timer-clear_timer h.timer k.timer m.pending,
      eq_iff r w,
    );
    entered = λ i t p.
        let q : find_timer i m.pending ≡ some t =
          ground (arith, p, find_timer-clear_timer h.timer i m.pending) in
        let (k, f, g) = v.entered i t q in
        (
          k,
          ground (
            arith,
            f,
            g,
            p,
            e,
            find_timer-clear_timer h.timer i m.pending,
            get-delete r t.run_id m.timeouts,
            eq_iff r t.run_id,
          ),
          g,
        );
    numbered =
        λ i t p. ground (arith, p, find_timer-clear_timer h.timer i m.pending, v.numbered i t);
  }

  pub clear-IsLinked : (r : String) → IsLinked (clear m r).0
  unfolding clear
  clear-IsLinked r = elim (Option-cases (get r m.timeouts)) [
    | inl e ↦ rw (e, clear) v
    | inr (h, e) ↦ rw (e, clear) (drop-IsLinked r h e)
  ]

  start-IsLinked :
      (r : String) (delay now : ℕ) → get r m.timeouts ≡ none → IsLinked (start m r delay now)
  unfolding start
  start-IsLinked r delay now e =
      let new : TimeoutHandle = record {
        run_id = r;
        scheduled_at = now;
        timeout_at = now + delay;
        timer = m.next_timer;
      } in
      record {
        armed = λ w k p. ground (
          arith,
          p,
          get-set r w new m.timeouts,
          v.armed w k,
          v.numbered k.timer (timer_of w k),
          eq_iff r w,
        );
        entered = λ i t p. elim (Bool-cases (nat_eq m.next_timer i)) [
          | inl b ↦ (
            new,
            ground (arith, p, get-set r t.run_id new m.timeouts, eq_iff r t.run_id),
            ground arith,
          )
          | inr b ↦
              let (k, f, g) = v.entered i t (ground (arith, p)) in
              (k, ground (arith, f, e, get-set r t.run_id new m.timeouts, eq_iff r t.run_id), g)
        ];
        numbered = λ i t p. ground (arith, p, v.numbered i t);
      }

pub get-clear :
    (m : TimeoutManager) (r w : String)
    → get w (clear m r).0.timeouts ≡ (if r == w then none else get w m.timeouts)
unfolding clear
get-clear m r w = ground (arith, get-delete r w m.timeouts, eq_iff r w)

-- Scheduling a run, scheduled before or not, keeps entries and timers together.
pub schedule-IsLinked :
    (m : TimeoutManager) (r : String) (delay now : ℕ)
    → IsLinked m
    → IsLinked (schedule m r delay now)
unfolding schedule
schedule-IsLinked m r delay now v =
    start-IsLinked (clear m r).0 (clear-IsLinked m v r) r delay now
      (ground (arith, get-clear m r r, eq_iff r r))

pub get-schedule :
    (m : TimeoutManager) (r w : String) (delay now : ℕ)
    → (r == w) ≡ false
    → get w (schedule m r delay now).timeouts ≡ get w m.timeouts
unfolding schedule start
get-schedule m r w delay now n = rw get-set (rw n (rw (get-clear m r w) (rw n)))
