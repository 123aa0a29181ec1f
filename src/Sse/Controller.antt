-- ===== src/Sse/Controller.antt =====
-- services/orchestrator/src/sse/sse.controller.ts: a client opens the stream of a run. The number that is
-- read from the query or the header (`none` if it is absent or no number), the run that is looked up
-- and the payload of the connection event are arguments. The timers are not modelled.
use minerva.Base.{
  ℕ, ◌+◌, ◌≤◌, String, ◌≡◌, ◌↔◌, Bool, true, false, Option, none, some, List, [], ◌∷◌, ◌++◌,
  if◌then◌else◌, inl, inr, ◌⊎◌,
}
use minerva.Dict.{values}
use minerva.Owner.{OwnerPrincipal, same_owner_principal}
use minerva.Run.{Run}
use minerva.Sse.{Payload, Envelope, stream_connected}
use minerva.Sse.Streams.{Cleanup}
use minerva.Sse.Sequencer.{current, create, create_at, next}
use minerva.Sse.Buffer.{get_from}
use minerva.Sse.Buffer.Replay.{In, InSome, get_from_lem}
use minerva.Sse.Service.{SseService, register_stream, get_buffered_events_from, create_envelope}

pub data Reply (J : Type 0) : Type 0 where
  not_found : Reply J
  -- The service, the cleanup function, and the events that are written to the stream.
  opened : SseService J → Cleanup → List (Envelope J) → Reply J

-- Whether the caller may see the run.
unfoldable pub is_visible : Option Run → OwnerPrincipal → Bool
is_visible none owner = false
is_visible (some run) owner = same_owner_principal run.owner owner

module _ {J : Type 0} where
  replayed : SseService J → Option ℕ → List (Envelope J)
  replayed s none = []
  replayed s (some seq) = get_buffered_events_from s seq

  unfoldable pub stream_events :
      SseService J
      → String
      → Option Run
      → OwnerPrincipal
      → Option ℕ
      → Payload J
      → String
      → ℕ
      → Reply J
  unfolding replayed
  stream_events s run_id run owner start_seq connected stream now =
      let (s', cleanup) = register_stream s run_id stream in
      let events = replayed s' start_seq in
      let (s'', connected_event) = create_envelope s' run_id stream_connected connected now in
      if is_visible run owner
      then opened s'' cleanup (events ++ connected_event ∷ [])
      else not_found

  abbrev pub written : Reply J → List (Envelope J)
  written not_found = []
  written (opened s cleanup events) = events

  In-snoc : (x y : Envelope J) (xs : List (Envelope J)) → In x (xs ++ y ∷ []) ↔ (In x xs ⊎ (x ≡ y))
  In-snoc x y [] = (
    λ h. elim h [ inl p ↦ inr p | inr q ↦ absurd q ],
    λ h. elim h [ inl p ↦ absurd p | inr q ↦ inl q ],
  )
  In-snoc x y (z ∷ zs) = (
    λ h. elim h [
      | inl p ↦ inl (inl p)
      | inr q ↦ elim ((In-snoc x y zs).0 q) [ inl i ↦ inl (inr i) | inr j ↦ inr j ]
    ],
    λ h. elim h [
      | inl p ↦ elim p [ inl e ↦ inl e | inr i ↦ inr ((In-snoc x y zs).1 (inl i)) ]
      | inr q ↦ inr ((In-snoc x y zs).1 (inr q))
    ],
  )

  -- A caller who may see the run and asks to resume from number `n` gets exactly the buffered events of
  -- number `n` or higher of all runs, and the connection event of the requested run.
  pub replay_is_not_filtered :
      (s : SseService J) (r : String) (run : Option Run) (owner : OwnerPrincipal) (n : ℕ)
      (p : Payload J) (stream : String) (now : ℕ) (x : Envelope J)
      → is_visible run owner ≡ true
      → In x (written (stream_events s r run owner (some n) p stream now)) ↔ (
          (InSome x (values s.event_buffer.buffers) × (n ≤ x.seq))
          ⊎ (x ≡ create_at r stream_connected p (current s.sequencer r + 1) now))
  unfolding stream_events register_stream get_buffered_events_from create_envelope create next
      current
  replay_is_not_filtered s r run owner n p stream now x h =
      let sn =
        In-snoc x (create_at r stream_connected p (current s.sequencer r + 1) now)
          (get_from s.event_buffer n) in
      let k = (get_from_lem s.event_buffer n x).1 in
      rw h (
        λ i. elim (sn.0 i) [ inl q ↦ inl (k.0 q) | inr e ↦ inr e ],
        λ i. sn.1 (elim i [ inl q ↦ inl (k.1 q) | inr e ↦ inr e ]),
      )
