-- ===== src/Lease.antt =====
-- services/orchestrator/src/services/lease.ts: at most one lease for each user, with a time to live.
-- A call reads the clock once, `now`, in milliseconds; the token that `acquire` draws from the clock
-- and `Math.random` is an argument.
pub mod Invariant
pub mod Exclusion
pub mod Expiry
use mathlib.Core.Option
use minerva.Base.{
  ℕ, suc, ◌+◌, String, ◌≡◌, Bool, true, false, Option, none, some, List, [], ◌∷◌, arith, ◌==◌,
  if◌then◌else◌, truthy, leb, ltb, ◌⊎◌, inl, inr,
}
use minerva.Dict.{Dict, get, set, delete}

pub record Lease : Type 0 where
  pub run_id : String
  pub token : String
  pub acquired_at : ℕ
  pub expires_at : ℕ

pub record LeaseManager : Type 0 where
  -- `leases`, from a user to its lease
  pub leases : Dict Lease
  -- `tokenToUser`
  pub token_to_user : Dict String

abbrev pub empty : LeaseManager
empty = record { leases = []; token_to_user = [] }

-- `throw new Error('Lease not found')`
pub data LeaseError : Type 0 where
  lease_not_found : LeaseError

abbrev pub default_lease_ttl_ms : ℕ
default_lease_ttl_ms = 30000

abbrev pub new_lease : String → String → ℕ → ℕ → Lease
new_lease run_id token ttl_ms now = record {
  run_id = run_id;
  token = token;
  acquired_at = now;
  expires_at = now + ttl_ms;
}

grant : LeaseManager → String → Lease → LeaseManager × Option Lease
grant m user_id lease = (
  record {
    leases = set user_id lease m.leases;
    token_to_user = set lease.token user_id m.token_to_user;
  },
  some lease,
)

acquire_over : LeaseManager → String → Lease → ℕ → Option Lease → LeaseManager × Option Lease
unfolding grant
acquire_over m user_id lease now none = grant m user_id lease
acquire_over m user_id lease now (some existing) =
    if ltb now existing.expires_at
    then (m, none)
    else grant (record m { token_to_user = delete existing.token m.token_to_user }) user_id lease

unfoldable pub acquire :
    LeaseManager → String → String → ℕ → String → ℕ → LeaseManager × Option Lease
unfolding acquire_over
acquire m user_id run_id ttl_ms token now =
    acquire_over m user_id (new_lease run_id token ttl_ms now) now (get user_id m.leases)

-- The user of a token and the user's lease, where that lease still carries the token.
unfoldable pub find : LeaseManager → String → Option String → Option (String × Lease)
find m token none = none
find m token (some user_id) = elim (get user_id m.leases) [
  | none ↦ none
  | some lease ↦ if lease.token == token then some (user_id, lease) else none
]

unfoldable pub holder : LeaseManager → String → Option (String × Lease)
unfolding find
holder m token = find m token (truthy (get token m.token_to_user))

unfoldable pub release : LeaseManager → String → LeaseManager
release m token = elim (holder m token) [
  | none ↦ m
  | some (user_id, lease) ↦ record {
    leases = delete user_id m.leases;
    token_to_user = delete token m.token_to_user;
  }
]

-- The extension writes the lease that the map holds.
unfoldable pub extend : LeaseManager → String → ℕ → LeaseManager ⊎ LeaseError
extend m token additional_ms = elim (holder m token) [
  | none ↦ inr lease_not_found
  | some (user_id, lease) ↦ inl (record m {
    leases = set user_id (record lease { expires_at = lease.expires_at + additional_ms }) m.leases;
  })
]

active_over : LeaseManager → String → ℕ → Option Lease → LeaseManager × Bool
active_over m user_id now none = (m, false)
active_over m user_id now (some lease) =
    if leb lease.expires_at now
    then (
      record {
        leases = delete user_id m.leases;
        token_to_user = delete lease.token m.token_to_user;
      },
      false,
    )
    else (m, true)

unfoldable pub is_active : LeaseManager → String → ℕ → LeaseManager × Bool
unfolding active_over
is_active m user_id now = active_over m user_id now (get user_id m.leases)

unfoldable pub get_active_run : LeaseManager → String → ℕ → LeaseManager × Option String
unfolding is_active
get_active_run m user_id now =
    let (m', active) = is_active m user_id now in
    (m', if active then Option.map (λ (l : Lease). l.run_id) (get user_id m'.leases) else none)

unfoldable pub get_lease : LeaseManager → String → ℕ → Option Lease
get_lease m token now = elim (holder m token) [
  | none ↦ none
  | some (user_id, lease) ↦ if leb lease.expires_at now then none else some lease
]

-- The loop of `cleanupExpired` over the entries.
unfoldable pub cleanup : LeaseManager → ℕ → Dict Lease → LeaseManager × ℕ
cleanup m now [] = (m, 0)
cleanup m now ((user_id, lease) ∷ entries) =
    let expired = leb lease.expires_at now in
    let m' : LeaseManager =
      if expired
      then record {
        leases = delete user_id m.leases;
        token_to_user = delete lease.token m.token_to_user;
      }
      else m in
    let (m'', cleaned) = cleanup m' now entries in (m'', if expired then suc cleaned else cleaned)

unfoldable pub cleanup_expired : LeaseManager → ℕ → LeaseManager × ℕ
unfolding cleanup
cleanup_expired m now = cleanup m now m.leases

unfoldable pub clear : LeaseManager → LeaseManager
clear m = empty
