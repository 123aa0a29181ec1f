-- ===== src/Cancellation.antt =====
-- services/orchestrator/src/services/cancellation.ts: a registry of cancellation contexts. A context
-- is an object that the registry and whoever holds its signal share, so it stands in a store and is
-- named by its index there; taking it out of the registry leaves it in the store.
pub mod Signals
use minerva.Base.{
  ℕ, zero, suc, String, Bool, true, false, Option, none, some, List, [], ◌∷◌, ◌++◌, if◌then◌else◌,
  or_else, length,
}
use minerva.Dict.{Dict, get, set, delete, keys, values}

-- `signal` is the reason of the signal once it is aborted.
pub record CancellationContext : Type 0 where
  pub run_id : String
  pub signal : Option String
  pub is_cancelled : Bool
  pub cancel_reason : Option String

pub record CancellationRegistry : Type 0 where
  pub contexts : Dict ℕ
  pub store : List CancellationContext

abbrev pub empty : CancellationRegistry
empty = record { contexts = []; store = [] }

abbrev pub new_context : String → CancellationContext
new_context run_id = record {
  run_id = run_id;
  signal = none;
  is_cancelled = false;
  cancel_reason = none;
}

-- `controller.abort(reason)`: only the first call has an effect.
abbrev abort : Option String → String → Option String
abort none reason = some reason
abort (some first) reason = some first

abbrev pub cancel_context : Option String → CancellationContext → CancellationContext
cancel_context reason c = if c.is_cancelled then c else record c {
  is_cancelled = true;
  cancel_reason = some (or_else reason "cancelled");
  signal = abort c.signal (or_else reason "cancelled");
}

abbrev pub load : List CancellationContext → ℕ → Option CancellationContext
load [] i = none
load (c ∷ cs) zero = some c
load (c ∷ cs) (suc i) = load cs i

-- A method call that writes the object at an index.
abbrev pub modify :
    (CancellationContext → CancellationContext)
    → List CancellationContext
    → ℕ
    → List CancellationContext
modify f [] i = []
modify f (c ∷ cs) zero = f c ∷ cs
modify f (c ∷ cs) (suc i) = c ∷ modify f cs i

unfoldable pub remove : CancellationRegistry → String → CancellationRegistry
remove s run_id = record s { contexts = delete run_id s.contexts }

unfoldable pub create : CancellationRegistry → String → CancellationRegistry × ℕ
unfolding remove
create s run_id =
    let removed = remove s run_id in
    (
      record {
        contexts = set run_id (length removed.store) removed.contexts;
        store = removed.store ++ new_context run_id ∷ [];
      },
      length removed.store,
    )

unfoldable pub lookup : CancellationRegistry → String → Option ℕ
lookup s run_id = get run_id s.contexts

unfoldable pub cancel : CancellationRegistry → String → Option String → CancellationRegistry × Bool
cancel s run_id reason = elim (get run_id s.contexts) [
  | none ↦ (s, false)
  | some i ↦ (record s { store = modify (cancel_context reason) s.store i }, true)
]

cancel_each : Option String → List CancellationContext → List ℕ → List CancellationContext
cancel_each reason store [] = store
cancel_each reason store (i ∷ is) = cancel_each reason (modify (cancel_context reason) store i) is

unfoldable pub cancel_all : CancellationRegistry → Option String → CancellationRegistry
unfolding cancel_each
cancel_all s reason = record s { store = cancel_each reason s.store (values s.contexts) }

abbrev cancelled_at : Option CancellationContext → Bool
cancelled_at none = false
cancelled_at (some c) = c.is_cancelled

unfoldable pub is_cancelled : CancellationRegistry → String → Bool
is_cancelled s run_id = elim (get run_id s.contexts) [
  | none ↦ false
  | some i ↦ cancelled_at (load s.store i)
]

unfoldable pub get_active_run_ids : CancellationRegistry → List String
get_active_run_ids s = keys s.contexts

unfoldable pub clear : CancellationRegistry → CancellationRegistry
clear s = record s { contexts = [] }
