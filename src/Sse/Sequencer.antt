-- ===== src/Sse/Sequencer.antt =====
-- services/orchestrator/src/sse/envelope.ts: the sequence numbers of a run, and envelopes.
use minerva.Base.{ℕ, ◌+◌, String, ◌≡◌, refl, Option, or_else, arith, ◌==◌, if◌then◌else◌}
use minerva.Dict.{Dict, get, set, delete, get-set, get-delete}
use minerva.Sse.{EventType, Payload, Envelope}

pub record EventSequencer : Type 0 where
  pub counters : Dict ℕ

unfoldable pub next : EventSequencer → String → EventSequencer × ℕ
next s run_id =
    let next = or_else (get run_id s.counters) 0 + 1 in
    (record { counters = set run_id next s.counters }, next)

unfoldable pub current : EventSequencer → String → ℕ
current s run_id = or_else (get run_id s.counters) 0

unfoldable pub reset : EventSequencer → String → Option ℕ → EventSequencer
reset s run_id start_at = record { counters = set run_id (or_else start_at 0) s.counters }

unfoldable pub cleanup : EventSequencer → String → EventSequencer
cleanup s run_id = record { counters = delete run_id s.counters }

module _ {J : Type 0} where
  unfoldable pub create_at : String → EventType → Payload J → ℕ → ℕ → Envelope J
  create_at run_id type payload seq ts = record {
    type = type;
    run_id = run_id;
    ts = ts;
    seq = seq;
    payload = payload;
  }

  unfoldable pub create :
      EventSequencer → String → EventType → Payload J → ℕ → EventSequencer × Envelope J
  unfolding create_at
  create s run_id type payload now =
      let (s', seq) = next s run_id in (s', create_at run_id type payload seq now)

-- The next number of a run is one more than its current one, and the numbers of other runs stay.
pub current-next :
    (s : EventSequencer) (r w : String)
    → ((next s r).1 ≡ current s r + 1)
      × (current (next s r).0 w ≡ (if r == w then current s r + 1 else current s w))
unfolding next current
current-next s r w =
    (refl, ground (arith, get-set r w (or_else (get r s.counters) 0 + 1) s.counters))

-- After `cleanup` the numbers of the run begin again; after `reset` they go on from the number given.
pub current-cleanup :
    (s : EventSequencer) (r w : String) (start : Option ℕ)
    → (current (cleanup s r) w ≡ (if r == w then 0 else current s w))
      × (current (reset s r start) w ≡ (if r == w then or_else start 0 else current s w))
unfolding cleanup current reset
current-cleanup s r w start = (
  ground (arith, get-delete r w s.counters),
  ground (arith, get-set r w (or_else start 0) s.counters),
)
