-- ===== src/Lease/Exclusion.antt =====
-- services/lease.ts: when `acquire` grants a lease, and what `release` gives back.
use minerva.Base.{
  ℕ, ◌+◌, ◌≤◌, String, ◌≡◌, ◌≢◌, refl, ◌∙◌, false, Option, none, some, arith, ◌==◌, if◌then◌else◌,
  ltb, inl, inr, eq_iff, Option-cases, Bool-cases,
}
use minerva.Dict.{get, delete, get-set, get-delete}
use minerva.Lease.{
  Lease, LeaseManager, acquire, acquire_over, grant, new_lease, holder, find, release,
}
use minerva.Lease.Invariant.{IsConsistent, holder_complete}

-- The lease of a user that still lasts at `now`.
abbrev lasting : ℕ → Option Lease → Option Lease
lasting now none = none
lasting now (some l) = if ltb now l.expires_at then some l else none

abbrev pub live_lease : LeaseManager → String → ℕ → Option Lease
live_lease m u now = lasting now (get u m.leases)

module _ (m : LeaseManager) (u r t : String) (ttl now : ℕ) where
  -- `acquire` refuses and changes nothing exactly while a lease of the user lasts; otherwise it
  -- grants a lease to this run that expires `ttl` later.
  pub acquire_refused :
      (l : Lease) → live_lease m u now ≡ some l → acquire m u r ttl t now ≡ (m, none)
  unfolding acquire acquire_over
  acquire_refused l h = ground arith

  pub acquire_granted :
      live_lease m u now ≡ none → (acquire m u r ttl t now).1 ≡ some (new_lease r t ttl now)
  unfolding acquire acquire_over grant
  acquire_granted h = ground arith

  pub leases-acquire :
      (w : String)
      → live_lease m u now ≡ none
      → get w (acquire m u r ttl t now).0.leases
        ≡ (if u == w then some (new_lease r t ttl now) else get w m.leases)
  unfolding acquire acquire_over grant
  leases-acquire w h = ground (arith, get-set u w (new_lease r t ttl now) m.leases)

  pub tokens-acquire_other :
      (s : String)
      → live_lease m u now ≡ none
      → (t == s) ≡ false
      → ((l : Lease) → get u m.leases ≡ some l → (l.token == s) ≡ false)
      → get s (acquire m u r ttl t now).0.token_to_user ≡ get s m.token_to_user
  unfolding acquire acquire_over grant
  tokens-acquire_other s h n o = elim (Option-cases (get u m.leases)) [
    | inl e ↦ ground (arith, e, get-set t s u m.token_to_user)
    | inr (l, e) ↦ ground (
      arith,
      e,
      h,
      o l e,
      get-set t s u (delete l.token m.token_to_user),
      get-delete l.token s m.token_to_user,
    )
  ]

-- Once `acquire` has granted a lease to a user without a lasting one, a second `acquire` for the same user, for whichever run, is
-- refused before the time to live has passed, and the user keeps the first lease; from then on it is
-- granted, and the user has the second lease.
pub acquire-exclusive :
    (m : LeaseManager) (u r t : String) (ttl now : ℕ) (r' t' : String) (ttl' later : ℕ)
    → live_lease m u now ≡ none
    → let m' = (acquire m u r ttl t now).0 in
      ((acquire m' u r' ttl' t' later).1
        ≡ (if ltb later (now + ttl) then none else some (new_lease r' t' ttl' later)))
      × (get u (acquire m' u r' ttl' t' later).0.leases
          ≡ some
              (if ltb later (now + ttl) then new_lease r t ttl now else new_lease r' t' ttl' later))
acquire-exclusive m u r t ttl now r' t' ttl' later h =
    let e : get u (acquire m u r ttl t now).0.leases ≡ some (new_lease r t ttl now) =
      leases-acquire m u r t ttl now u h ∙ ground (arith, eq_iff u u) in
    let m' = (acquire m u r ttl t now).0 in
    elim (Bool-cases (ltb later (now + ttl))) [
      | inl b ↦
          let refused =
            acquire_refused m' u r' t' ttl' later (new_lease r t ttl now) (rw e (rw b refl)) in
          rw (refused, b) (refl, e)
      | inr b ↦
          let free : live_lease m' u later ≡ none = rw e (rw b refl) in
          rw
            (
              b,
              acquire_granted m' u r' t' ttl' later free,
              leases-acquire m' u r' t' ttl' later u free,
            )
            (refl, ground (arith, eq_iff u u))
    ]

-- Leases of different users do not affect each other.
pub acquire-other_user :
    (m : LeaseManager) (u w r t r' t' : String) (ttl ttl' now later : ℕ)
    → u ≢ w
    → (acquire (acquire m u r ttl t now).0 w r' ttl' t' later).1 ≡ (acquire m w r' ttl' t' later).1
unfolding acquire acquire_over grant
acquire-other_user m u w r t r' t' ttl ttl' now later n =
    ground (arith, eq_iff u w, get-set u w (new_lease r t ttl now) m.leases)

-- Releasing a lease of a user with a name takes it away, and leaves the others alone.
pub leases-release :
    (m : LeaseManager) (u w : String) (l : Lease)
    → IsConsistent m
    → u ≢ ""
    → get u m.leases ≡ some l
    → get w (release m l.token).leases ≡ (if u == w then none else get w m.leases)
unfolding release
leases-release m u w l v n h = rw (holder_complete m u l v n h, release) (get-delete u w m.leases)

-- In a consistent manager the release of a lease of a user with a name takes away that user's lease
-- and no other, and the user's next `acquire` is granted.
pub release-acquire :
    (m : LeaseManager) (u w r t : String) (ttl now : ℕ) (l : Lease)
    → IsConsistent m
    → u ≢ ""
    → get u m.leases ≡ some l
    → ((acquire (release m l.token) u r ttl t now).1 ≡ some (new_lease r t ttl now))
      × (get w (release m l.token).leases ≡ (if u == w then none else get w m.leases))
release-acquire m u w r t ttl now l v n h = (
  acquire_granted (release m l.token) u r t ttl now
      (rw (leases-release m u u l v n h) (ground (arith, eq_iff u u))),
  leases-release m u w l v n h,
)

-- In a consistent manager, when a lease of a user has run out and `acquire` has taken it over under a
-- token that was not in use, the release of the old token changes nothing.
pub stale_release :
    (m : LeaseManager) (u r t : String) (ttl now : ℕ) (old : Lease)
    → IsConsistent m
    → get u m.leases ≡ some old
    → old.expires_at ≤ now
    → get t m.token_to_user ≡ none
    → release (acquire m u r ttl t now).0 old.token ≡ (acquire m u r ttl t now).0
unfolding release holder find acquire acquire_over grant
stale_release m u r t ttl now old v h late fresh = ground (
  arith,
  h,
  v.issued u old h,
  get-set t old.token u (delete old.token m.token_to_user),
  get-delete old.token old.token m.token_to_user,
  eq_iff old.token old.token,
  eq_iff t old.token,
)
