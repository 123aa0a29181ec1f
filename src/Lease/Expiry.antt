-- ===== src/Lease/Expiry.antt =====
-- Leases that have run out: what a look at a user reports and cleans up, and the sweep over all.
use mathlib.Core.Option
use minerva.Base.{
  ℕ, suc, ◌≤◌, String, ◌≡◌, refl, ◌∙◌, Bool, false, none, some, [], ◌∷◌, arith, ◌==◌, if◌then◌else◌,
  leb, inl, inr, ◌&&◌, ◌||◌, eq_iff, Option-cases, IsDistinct,
}
use minerva.Dict.{Dict, get, delete, keys, get-delete}
use minerva.Dict.Keys.{get_of_keys-false}
use minerva.Lease.{
  Lease, LeaseManager, acquire, acquire_over, grant, is_active, active_over, get_active_run,
  cleanup, cleanup_expired,
}
use minerva.Lease.Invariant.{IsConsistent, drop-IsConsistent}
use minerva.Lease.Exclusion.{live_lease}

-- `getActiveRun` reports the run of the user's lease exactly while it lasts, and leaves behind the
-- leases that last, of this user, and those of the others as they were.
pub get_active_run_lem :
    (m : LeaseManager) (u w : String) (now : ℕ)
    → ((get_active_run m u now).1 ≡ Option.map (λ (l : Lease). l.run_id) (live_lease m u now))
      × (get w (get_active_run m u now).0.leases
          ≡ (if u == w then live_lease m u now else get w m.leases))
unfolding get_active_run is_active active_over
get_active_run_lem m u w now = elim (Option-cases (get u m.leases)) [
  | inl e ↦ rw (e, get_active_run) (ground (arith, eq_iff u w), ground (arith, eq_iff u w))
  | inr (l, e) ↦ ground (arith, e, eq_iff u w, get-delete u w m.leases, get-delete u u m.leases)
]

-- Does an entry of the user among the entries have to go?
stale : ℕ → String → Dict Lease → Bool
stale now w [] = false
stale now w ((u, l) ∷ es) = (u == w) && leb l.expires_at now || stale now w es

-- The number of entries that have run out.
pub expired_count : ℕ → Dict Lease → ℕ
expired_count now [] = 0
expired_count now ((u, l) ∷ es) =
    let rest = expired_count now es in if leb l.expires_at now then suc rest else rest

leases-cleanup :
    (es : Dict Lease) (m : LeaseManager) (now : ℕ) (w : String)
    → get w (cleanup m now es).0.leases ≡ (if stale now w es then none else get w m.leases)
unfolding cleanup stale
leases-cleanup [] m now w = refl
leases-cleanup ((u, l) ∷ es) m now w =
    leases-cleanup es _ now w ∙ ground (arith, get-delete u w m.leases)

stale-get :
    (now : ℕ) (w : String) (es : Dict Lease)
    → IsDistinct (keys es)
    → stale now w es ≡ elim (get w es) [ none ↦ false | some l ↦ leb l.expires_at now ]
unfolding stale keys get
stale-get now w [] d = refl
stale-get now w ((u, l) ∷ es) d =
    ground (arith, stale-get now w es d.1, eq_iff u w, get_of_keys-false u es d.0)

count-cleanup :
    (es : Dict Lease) (m : LeaseManager) (now : ℕ) → (cleanup m now es).1 ≡ expired_count now es
unfolding cleanup expired_count
count-cleanup [] m now = refl
count-cleanup ((u, l) ∷ es) m now = ground (
  arith,
  count-cleanup es m now,
  count-cleanup es
      (record { leases = delete u m.leases; token_to_user = delete l.token m.token_to_user }) now,
)

-- Every entry is the lease that the manager holds for its user.
Held : LeaseManager → Dict Lease → Type 0
Held m es = (u : String) (l : Lease) → get u es ≡ some l → get u m.leases ≡ some l

cleanup-IsConsistent :
    (es : Dict Lease) (m : LeaseManager) (now : ℕ)
    → IsConsistent m
    → IsDistinct (keys es)
    → Held m es
    → IsConsistent (cleanup m now es).0
unfolding cleanup keys get Held
cleanup-IsConsistent [] m now v d h = v
cleanup-IsConsistent ((u, l) ∷ es) m now v d h =
    cleanup-IsConsistent es _ now
      (ground (arith, v, drop-IsConsistent m v u l (h u l (ground (arith, eq_iff u u))))) d.1
      (λ w k p.
        ground
          (arith, p, h w k, d.0, get_of_keys-false u es d.0, get-delete u w m.leases, eq_iff u w))

-- In a consistent manager in which no user stands twice, the sweep leaves each user exactly the lease
-- that still lasts, counts the leases that have run out, and keeps the manager consistent.
pub cleanup_expired_lem :
    (m : LeaseManager) (now : ℕ)
    → IsConsistent m
    → IsDistinct (keys m.leases)
    → ((w : String) → get w (cleanup_expired m now).0.leases ≡ live_lease m w now)
      × ((cleanup_expired m now).1 ≡ expired_count now m.leases)
      × IsConsistent (cleanup_expired m now).0
unfolding cleanup_expired
cleanup_expired_lem m now v d = (
  λ w. leases-cleanup m.leases m now w ∙ ground (arith, stale-get now w m.leases d),
  count-cleanup m.leases m now,
  cleanup-IsConsistent m.leases m now v d (unfold Held in λ u l h. h),
)

-- In a consistent manager in which no user stands twice, no `acquire` can tell whether
-- the sweep ran before it, at the same time or earlier.
pub acquire-cleanup :
    (m : LeaseManager) (u r t : String) (ttl swept now : ℕ)
    → IsConsistent m
    → IsDistinct (keys m.leases)
    → swept ≤ now
    → (acquire (cleanup_expired m swept).0 u r ttl t now).1 ≡ (acquire m u r ttl t now).1
unfolding acquire acquire_over grant
acquire-cleanup m u r t ttl swept now v d le = ground (arith, (cleanup_expired_lem m swept v d).0 u)
