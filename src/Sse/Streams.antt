-- ===== src/Sse/Streams.antt =====
-- services/orchestrator/src/sse/stream.ts: the connections of each run. The `Set` of a run is an object
-- that the cleanup functions of its streams hold too, so the sets stand in a store and are named by
-- their index; a stream object is named by a text. What a stream does when it is written to is the
-- caller's code: `condition` says of each stream whether it is open and takes a write, is closed, or is
-- open and its `write` throws.
pub mod Delivery
pub mod Stale
use minerva.Base.{
  ℕ, zero, suc, ◌+◌, String, Bool, true, false, Option, none, some, List, [], ◌∷◌, ◌++◌,
  if◌then◌else◌, or_else, length, includes, ◌==◌,
}
use minerva.Dict.{Dict, get, set, delete, values}
use minerva.Sse.{Envelope}

pub data Condition : Type 0 where
  takes_writes is_closed throws : Condition

-- What is done to streams: a call of `write`, with the event, or of `close`.
pub data Effect (J : Type 0) : Type 0 where
  write : String → Envelope J → Effect J
  close : String → Effect J

pub record StreamController : Type 0 where
  pub streams : Dict ℕ
  pub sets : List (List String)

-- What the function returned by `register` holds.
pub record Cleanup : Type 0 where
  pub run_id : String
  pub run_streams : ℕ
  pub stream : String

abbrev pub load : List (List String) → ℕ → List String
load [] i = []
load (s ∷ ss) zero = s
load (s ∷ ss) (suc i) = load ss i

abbrev pub store : ℕ → List String → List (List String) → List (List String)
store i s [] = []
store zero s (x ∷ xs) = s ∷ xs
store (suc i) s (x ∷ xs) = x ∷ store i s xs

-- `Set.add` and `Set.delete`
abbrev pub add : String → List String → List String
add x s = if includes x s then s else s ++ x ∷ []

abbrev pub without : String → List String → List String
without x [] = []
without x (y ∷ ys) = let rest = without x ys in if y == x then rest else y ∷ rest

-- The controller with a set for the run, and its index.
unfoldable pub ensure : StreamController → String → StreamController × ℕ
ensure c run_id = elim (get run_id c.streams) [
  | some i ↦ (c, i)
  | none ↦ (
    record { streams = set run_id (length c.sets) c.streams; sets = c.sets ++ [] ∷ [] },
    length c.sets,
  )
]

unfoldable pub register : StreamController → String → String → StreamController × Cleanup
register c run_id stream =
    let (c', i) = ensure c run_id in
    (
      record c' { sets = store i (add stream (load c'.sets i)) c'.sets },
      record { run_id = run_id; run_streams = i; stream = stream },
    )

-- `if (runStreams.size === 0) this.streams.delete(runId)`
unfoldable pub delete_if_empty : StreamController → String → ℕ → StreamController
delete_if_empty c run_id i = elim (load c.sets i) [
  | [] ↦ record c { streams = delete run_id c.streams }
  | x ∷ xs ↦ c
]

-- `broadcast`: the writes that are tried, then the streams that are dropped.
abbrev pub is_open : Condition → Bool
is_open takes_writes = true
is_open is_closed = false
is_open throws = true

abbrev pub has_failed : Condition → Bool
has_failed takes_writes = false
has_failed is_closed = true
has_failed throws = true

abbrev pub dead_streams : (String → Condition) → List String → List String
dead_streams condition [] = []
dead_streams condition (s ∷ ss) =
    let rest = dead_streams condition ss in if has_failed (condition s) then s ∷ rest else rest

abbrev pub delete_all : List String → List String → List String
delete_all [] set = set
delete_all (dead ∷ deads) set = delete_all deads (without dead set)

module _ {J : Type 0} where
  -- Running the function that `register` returned.
  unfoldable pub clean_up :
      StreamController → Cleanup → (String → Condition) → StreamController × List (Effect J)
  clean_up c k condition =
      let left = record c {
        sets = store k.run_streams (without k.stream (load c.sets k.run_streams)) c.sets;
      } in
      (
        delete_if_empty left k.run_id k.run_streams,
        if is_open (condition k.stream) then close k.stream ∷ [] else [],
      )

  abbrev pub writes : (String → Condition) → Envelope J → List String → List (Effect J)
  writes condition event [] = []
  writes condition event (s ∷ ss) =
      let rest = writes condition event ss in
      if is_open (condition s) then write s event ∷ rest else rest

  abbrev pub closes : List String → List (Effect J)
  closes [] = []
  closes (s ∷ ss) = close s ∷ closes ss

  unfoldable pub broadcast :
      StreamController
      → String
      → Envelope J
      → (String → Condition)
      → StreamController × List (Effect J)
  broadcast c run_id event condition = elim (get run_id c.streams) [
    | none ↦ (c, [])
    | some i ↦
        let streams = load c.sets i in
        let dead = dead_streams condition streams in
        (
          delete_if_empty (record c { sets = store i (delete_all dead streams) c.sets }) run_id i,
          writes condition event streams ++ closes dead,
        )
  ]

  unfoldable pub close_run : StreamController → String → StreamController × List (Effect J)
  close_run c run_id = elim (get run_id c.streams) [
    | none ↦ (c, [])
    | some i ↦ (record c { streams = delete run_id c.streams }, closes (load c.sets i))
  ]

-- The streams of a run.
unfoldable pub connected : StreamController → String → List String
connected c run_id = elim (get run_id c.streams) [ none ↦ [] | some i ↦ load c.sets i ]

unfoldable pub get_connection_count : StreamController → String → ℕ
unfolding connected
get_connection_count c run_id = length (connected c run_id)

total : List (List String) → List ℕ → ℕ
total sets [] = 0
total sets (i ∷ is) = length (load sets i) + total sets is

unfoldable pub get_total_connections : StreamController → ℕ
unfolding total
get_total_connections c = total c.sets (values c.streams)
