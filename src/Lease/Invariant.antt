-- ===== src/Lease/Invariant.antt =====
-- services/lease.ts: the agreement of the leases with the index of their tokens.
use minerva.Base.{
  ℕ, ◌+◌, String, ◌≡◌, ◌≢◌, refl, Bool, true, false, Option, none, some, arith, ◌==◌, subst, truthy,
  leb, ltb, inl, inr, eq_iff, Option-cases, Bool-cases,
}
use minerva.Dict.{get, set, delete, get-set, get-delete}
use minerva.Lease.{
  Lease, LeaseManager, empty, acquire, acquire_over, grant, new_lease, holder, find, release,
  extend, is_active, active_over,
}

-- Does the user's lease carry the token?
abbrev carries : Option Lease → String → Bool
carries none token = false
carries (some lease) token = lease.token == token

pub record IsConsistent (m : LeaseManager) : Type 0 where
  -- the token of a lease leads to its user
  pub issued :
      (u : String) (l : Lease) → get u m.leases ≡ some l → get l.token m.token_to_user ≡ some u
  -- a recorded token is that of its user's lease
  pub recorded : (t u : String) → get t m.token_to_user ≡ some u → carries (get u m.leases) t ≡ true

pub empty-IsConsistent : IsConsistent empty
unfolding get
empty-IsConsistent = record { issued = λ u l h. cc; recorded = λ t u h. cc }

module _ (m : LeaseManager) (v : IsConsistent m) where
  grant-IsConsistent :
      (u : String) (l : Lease)
      → get l.token m.token_to_user ≡ none
      → (get u m.leases ≡ none)
      → IsConsistent (grant m u l).0
  unfolding grant
  grant-IsConsistent u l fresh free = record {
    issued = λ w k h. ground (
      arith,
      h,
      get-set u w l m.leases,
      get-set l.token k.token u m.token_to_user,
      v.issued w k,
      eq_iff u w,
      eq_iff l.token k.token,
    );
    recorded = λ t w h. ground (
      arith,
      h,
      get-set u w l m.leases,
      get-set l.token t u m.token_to_user,
      v.recorded t w,
      eq_iff u w,
      eq_iff l.token t,
    );
  }

  -- Dropping a user's lease with its token.
  pub drop-IsConsistent :
      (u : String) (l : Lease)
      → get u m.leases ≡ some l
      → IsConsistent
          (record { leases = delete u m.leases; token_to_user = delete l.token m.token_to_user })
  drop-IsConsistent u l h = record {
    issued = λ w k p. ground (
      arith,
      p,
      h,
      get-delete u w m.leases,
      get-delete l.token k.token m.token_to_user,
      v.issued w k,
      v.issued u l,
      eq_iff u w,
      eq_iff l.token k.token,
    );
    recorded = λ t w p. ground (
      arith,
      p,
      h,
      get-delete u w m.leases,
      get-delete l.token t m.token_to_user,
      v.recorded t w,
      eq_iff u w,
      eq_iff l.token t,
    );
  }

  replace-IsConsistent :
      (u : String) (old l : Lease)
      → get u m.leases ≡ some old
      → get l.token m.token_to_user ≡ none
      → IsConsistent (grant (record m { token_to_user = delete old.token m.token_to_user }) u l).0
  unfolding grant
  replace-IsConsistent u old l h fresh = record {
    issued = λ w k p. ground (
      arith,
      p,
      h,
      get-set u w l m.leases,
      get-set l.token k.token u (delete old.token m.token_to_user),
      get-delete old.token k.token m.token_to_user,
      v.issued w k,
      v.issued u old,
      eq_iff u w,
      eq_iff l.token k.token,
      eq_iff old.token k.token,
    );
    recorded = λ t w p. ground (
      arith,
      p,
      h,
      get-set u w l m.leases,
      get-set l.token t u (delete old.token m.token_to_user),
      get-delete old.token t m.token_to_user,
      v.recorded t w,
      eq_iff u w,
      eq_iff l.token t,
      eq_iff old.token t,
    );
  }

  -- A token that the index does not know can be granted.
  pub acquire-IsConsistent :
      (u r t : String) (ttl now : ℕ)
      → get t m.token_to_user ≡ none
      → IsConsistent (acquire m u r ttl t now).0
  unfolding acquire acquire_over
  acquire-IsConsistent u r t ttl now fresh = elim (Option-cases (get u m.leases)) [
    | inl e ↦ rw (e, acquire_over) (grant-IsConsistent u (new_lease r t ttl now) fresh e)
    | inr (old, e) ↦
        rw (e, acquire_over)
          (elim (Bool-cases (ltb now old.expires_at)) [
            | inl b ↦ rw b v
            | inr b ↦ rw b (replace-IsConsistent u old (new_lease r t ttl now) e fresh)
          ])
  ]

  pub is_active-IsConsistent : (u : String) (now : ℕ) → IsConsistent (is_active m u now).0
  unfolding is_active active_over
  is_active-IsConsistent u now = elim (Option-cases (get u m.leases)) [
    | inl e ↦ rw (e, active_over) v
    | inr (l, e) ↦
        rw (e, active_over)
          (elim (Bool-cases (leb l.expires_at now)) [
            | inl b ↦ rw b (drop-IsConsistent u l e)
            | inr b ↦ rw b v
          ])
  ]

find_sound :
    (m : LeaseManager) (t : String) (o : Option String) (u : String) (l : Lease)
    → find m t o ≡ some (u, l)
    → (o ≡ some u) × (get u m.leases ≡ some l) × (l.token ≡ t)
unfolding find
find_sound m t none u l h = cc
find_sound m t (some w) u l h = ground (arith, h, eq_iff l.token t)

-- What `holder` finds is a user and its lease, which carries the token.
pub holder_sound :
    (m : LeaseManager) (t u : String) (l : Lease)
    → holder m t ≡ some (u, l)
    → (get t m.token_to_user ≡ some u) × (get u m.leases ≡ some l) × (l.token ≡ t)
unfolding holder
holder_sound m t u l h =
    let (o, e, f) = find_sound m t (truthy (get t m.token_to_user)) u l h in
    (ground (arith, o), e, f)

-- In a consistent manager every lease of a user with a name is found by its token.
pub holder_complete :
    (m : LeaseManager) (u : String) (l : Lease)
    → IsConsistent m
    → u ≢ ""
    → get u m.leases ≡ some l
    → holder m l.token ≡ some (u, l)
unfolding holder find
holder_complete m u l v n h = ground (arith, v.issued u l h, h, eq_iff u "", eq_iff l.token l.token)

module _ (m : LeaseManager) (v : IsConsistent m) where
  pub release-IsConsistent : (t : String) → IsConsistent (release m t)
  unfolding release
  release-IsConsistent t = elim (Option-cases (holder m t)) [
    | inl e ↦ rw (e, release) v
    | inr ((u, l), e) ↦
        let (_, f, g) = holder_sound m t u l e in
        rw (e, release) (rw (← g) (drop-IsConsistent m v u l f))
  ]

  -- A lease whose times change keeps its place.
  extended-IsConsistent :
      (u : String) (l k : Lease)
      → get u m.leases ≡ some l
      → k.token ≡ l.token
      → IsConsistent (record m { leases = set u k m.leases })
  extended-IsConsistent u l k h g = record {
    issued = λ w j p.
        ground (arith, p, h, g, get-set u w k m.leases, v.issued w j, v.issued u l, eq_iff u w);
    recorded = λ t w p. ground (arith, p, h, g, get-set u w k m.leases, v.recorded t w, eq_iff u w);
  }

  pub extend-IsConsistent :
      (t : String) (ms : ℕ) (m' : LeaseManager) → extend m t ms ≡ inl m' → IsConsistent m'
  unfolding extend
  extend-IsConsistent t ms m' h = elim (Option-cases (holder m t)) [
    | inl e ↦ ground (arith, e, h)
    | inr ((u, l), e) ↦
        let (_, f, g) = holder_sound m t u l e in
        subst IsConsistent (ground (arith, rw (e, extend) at h))
          (extended-IsConsistent u l (record l { expires_at = l.expires_at + ms }) f refl)
  ]
