-- ===== src/Sse/Buffer.antt =====
-- services/orchestrator/src/sse/buffer.ts: the last events of each run, kept for replay.
pub mod Window
pub mod Replay
use minerva.Base.{
  ℕ, ◌+◌, String, Bool, true, false, Option, none, some, List, [], ◌∷◌, ◌++◌, or_else,
  if◌then◌else◌, length, tail, ltb, leb,
}
use minerva.Dict.{Dict, get, set, delete, values}
use minerva.Sse.{Envelope}

pub record EventBuffer (J : Type 0) : Type 0 where
  pub buffers : Dict (List (Envelope J))
  pub max_size : ℕ

module _ {J : Type 0} where
  -- `push`, then `shift` if there are too many.
  unfoldable pub append : ℕ → List (Envelope J) → Envelope J → List (Envelope J)
  append max_size buffer event =
      let longer = buffer ++ event ∷ [] in
      if ltb max_size (length longer) then tail longer else longer

  unfoldable pub push : EventBuffer J → Envelope J → EventBuffer J
  unfolding append
  push b event = record b {
    buffers =
        set event.run_id (append b.max_size (or_else (get event.run_id b.buffers) []) event)
          b.buffers;
  }

  unfoldable pub events_from : ℕ → List (Envelope J) → List (Envelope J)
  events_from seq [] = []
  events_from seq (event ∷ events) =
      let rest = events_from seq events in if leb seq event.seq then event ∷ rest else rest

  unfoldable pub collect : ℕ → List (List (Envelope J)) → List (Envelope J)
  unfolding events_from
  collect seq [] = []
  collect seq (buffer ∷ buffers) = events_from seq buffer ++ collect seq buffers

  -- `Array.sort` is stable: an event goes in front of those with the same number that stood behind it.
  unfoldable pub insert : Envelope J → List (Envelope J) → List (Envelope J)
  insert event [] = event ∷ []
  insert event (x ∷ xs) = if leb event.seq x.seq then event ∷ x ∷ xs else x ∷ insert event xs

  unfoldable pub sort : List (Envelope J) → List (Envelope J)
  unfolding insert
  sort [] = []
  sort (event ∷ events) = insert event (sort events)

  unfoldable pub get_from : EventBuffer J → ℕ → List (Envelope J)
  unfolding collect sort
  get_from b seq = sort (collect seq (values b.buffers))

  unfoldable pub get_all_for_run : EventBuffer J → String → List (Envelope J)
  get_all_for_run b run_id = or_else (get run_id b.buffers) []

  unfoldable pub clear : EventBuffer J → String → EventBuffer J
  clear b run_id = record b { buffers = delete run_id b.buffers }

  unfoldable pub size : EventBuffer J → String → ℕ
  size b run_id = length (or_else (get run_id b.buffers) [])

  total : List (List (Envelope J)) → ℕ
  total [] = 0
  total (buffer ∷ buffers) = length buffer + total buffers

  unfoldable pub get_total_size : EventBuffer J → ℕ
  unfolding total
  get_total_size b = total (values b.buffers)
