-- ===== src/Sse/Service/Numbering.antt =====
-- sse/sse.service.ts: the numbers of the buffered events and the run's counter.
use minerva.Base.{
  ℕ, ◌+◌, ◌≤◌, ◌<◌, String, ◌≡◌, refl, sym, ap, subst, Bool, true, false, none, some, List, [], ◌∷◌,
  ◌++◌, if◌then◌else◌, or_else, length, tail, ltb, ◌==◌, eq_iff, arith, Bool-cases, Option-cases,
  inl, inr,
}
use minerva.Dict.{get, get-set, get-delete}
use minerva.Sse.{EventType, Payload, Envelope}
use minerva.Sse.Sequencer.{EventSequencer, next, current, create, current-next, current-cleanup}
use minerva.Sse.Buffer.{EventBuffer, append, push, get_all_for_run}
use minerva.Sse.Buffer
use minerva.Sse.Streams.{Condition}
use minerva.Sse.Mapper.{AgentEvent, map_event, map_orchestrator_event, payload_of}
use minerva.Sse.Service.{
  SseService, broadcast, broadcast_agent_event, broadcast_orchestrator_event, close_run,
  create_envelope,
}

module _ {J : Type 0} where
  -- The numbers rise strictly, from above `low` to at most `high`.
  abbrev pub IsRising : ℕ → ℕ → List (Envelope J) → Type 0
  IsRising low high [] = low ≤ high
  IsRising low high (x ∷ xs) = (low < x.seq) × IsRising x.seq high xs

  -- What a run's buffer holds rises to the run's counter.
  abbrev pub IsNumbered : EventSequencer → EventBuffer J → Type 0
  IsNumbered s b = (r : String) → IsRising 0 (current s r) (get_all_for_run b r)

  lower :
      (k low high : ℕ) (xs : List (Envelope J))
      → k ≤ low
      → IsRising low high xs
      → IsRising k high xs
  lower k low high [] h a = omega arith
  lower k low high (x ∷ xs) h a = (omega (arith, a.0), a.1)

  tail-IsRising :
      (low high : ℕ) (xs : List (Envelope J)) → IsRising low high xs → IsRising low high (tail xs)
  tail-IsRising low high [] a = a
  tail-IsRising low high (x ∷ xs) a = lower low x.seq high xs (omega (arith, a.0)) a.1

  snoc-IsRising :
      (low high : ℕ) (xs : List (Envelope J)) (e : Envelope J)
      → e.seq ≡ high + 1
      → IsRising low high xs
      → IsRising low (high + 1) (xs ++ e ∷ [])
  snoc-IsRising low high [] e h a = (omega arith, omega arith)
  snoc-IsRising low high (x ∷ xs) e h a = (a.0, snoc-IsRising x.seq high xs e h a.1)

  raise :
      (low high : ℕ) (xs : List (Envelope J)) → IsRising low high xs → IsRising low (high + 1) xs
  raise low high [] a = omega (arith, a)
  raise low high (x ∷ xs) a = (a.0, raise x.seq high xs a.1)

  append-IsRising :
      (n high : ℕ) (xs : List (Envelope J)) (e : Envelope J)
      → e.seq ≡ high + 1
      → IsRising 0 high xs
      → IsRising 0 (high + 1) (append n xs e)
  unfolding append
  append-IsRising n high xs e h a = elim (Bool-cases (ltb n (length (xs ++ e ∷ [])))) [
    | inl b ↦ rw b (tail-IsRising 0 (high + 1) (xs ++ e ∷ []) (snoc-IsRising 0 high xs e h a))
    | inr b ↦ rw b (snoc-IsRising 0 high xs e h a)
  ]

  -- Drawing a number without an event.
  next-IsNumbered :
      (s : EventSequencer) (b : EventBuffer J) (r : String)
      → IsNumbered s b
      → IsNumbered (next s r).0 b
  next-IsNumbered s b r n w = rw ((current-next s r w).1) (by_run (r == w) refl)
    where
      by_run :
          (t : Bool)
          → (r == w) ≡ t
          → IsRising 0 (if t then current s r + 1 else current s w) (get_all_for_run b w)
      by_run true e =
          subst (λ x. IsRising 0 (current s x + 1) (get_all_for_run b w)) (sym ((eq_iff r w).0 e))
            (raise 0 (current s w) (get_all_for_run b w) (n w))
      by_run false e = n w

  get_all_for_run-push :
      (b : EventBuffer J) (e : Envelope J) (w : String)
      → get_all_for_run (push b e) w
        ≡ (if e.run_id == w then append b.max_size (get_all_for_run b w) e else get_all_for_run b w)
  unfolding get_all_for_run push
  get_all_for_run-push b e w = rw get-set (by_run (e.run_id == w) refl)
    where
      by_run :
          (t : Bool)
          → (e.run_id == w) ≡ t
          → or_else
              (if t
                then some (append b.max_size (or_else (get e.run_id b.buffers) []) e)
                else get w b.buffers)
              []
            ≡ (if t
                then append b.max_size (or_else (get w b.buffers) []) e
                else or_else (get w b.buffers) [])
      by_run true h =
          ap (λ x. append b.max_size (or_else (get x b.buffers) []) e) ((eq_iff e.run_id w).0 h)
      by_run false h = refl

  -- Drawing a number and buffering the run's event with that number.
  push-IsNumbered :
      (s : EventSequencer) (b : EventBuffer J) (e : Envelope J)
      → e.seq ≡ current s e.run_id + 1
      → IsNumbered s b
      → IsNumbered (next s e.run_id).0 (push b e)
  push-IsNumbered s b e h n w =
      rw ((current-next s e.run_id w).1, get_all_for_run-push b e w) (by_run (e.run_id == w) refl)
    where
      by_run :
          (t : Bool)
          → (e.run_id == w) ≡ t
          → IsRising 0
              (if t then current s e.run_id + 1 else current s w)
              (if t then append b.max_size (get_all_for_run b w) e else get_all_for_run b w)
      by_run true t =
          let same = (eq_iff e.run_id w).0 t in
          let own = subst (λ x. IsRising 0 (current s x) (get_all_for_run b w)) (sym same) (n w) in
          append-IsRising b.max_size (current s e.run_id) (get_all_for_run b w) e h own
      by_run false t = n w

  pub broadcast_agent_event-IsNumbered :
      (s : SseService J) (r : String) (e : AgentEvent J) (condition : String → Condition) (now : ℕ)
      → IsNumbered s.sequencer s.event_buffer
      → let s' = (broadcast_agent_event s r e condition now).0 in
        IsNumbered s'.sequencer s'.event_buffer
  unfolding broadcast_agent_event broadcast map_event
  broadcast_agent_event-IsNumbered s r e condition now n = elim (Option-cases (payload_of e)) [
    | inl h ↦
        rw (broadcast_agent_event, map_event, h) (next-IsNumbered s.sequencer s.event_buffer r n)
    | inr (x, h) ↦
        rw (broadcast_agent_event, map_event, h)
          (push-IsNumbered s.sequencer s.event_buffer _ (current-next s.sequencer r r).0 n)
  ]

  pub broadcast_orchestrator_event-IsNumbered :
      (s : SseService J) (r : String) (type : EventType) (p : J) (condition : String → Condition)
      (now : ℕ)
      → IsNumbered s.sequencer s.event_buffer
      → let s' = (broadcast_orchestrator_event s r type p condition now).0 in
        IsNumbered s'.sequencer s'.event_buffer
  unfolding broadcast_orchestrator_event broadcast map_orchestrator_event
  broadcast_orchestrator_event-IsNumbered s r type p condition now n =
      push-IsNumbered s.sequencer s.event_buffer _ (current-next s.sequencer r r).0 n

  pub create_envelope-IsNumbered :
      (s : SseService J) (r : String) (type : EventType) (p : Payload J) (now : ℕ)
      → IsNumbered s.sequencer s.event_buffer
      → let s' = (create_envelope s r type p now).0 in IsNumbered s'.sequencer s'.event_buffer
  unfolding create_envelope create
  create_envelope-IsNumbered s r type p now n = next-IsNumbered s.sequencer s.event_buffer r n

  -- `broadcast` of the envelope that `createEnvelope` has just made.
  pub broadcast_new-IsNumbered :
      (s : SseService J) (r : String) (type : EventType) (p : Payload J)
      (condition : String → Condition) (now : ℕ)
      → IsNumbered s.sequencer s.event_buffer
      → let (s1, envelope) = create_envelope s r type p now in
        let s' = (broadcast s1 r envelope condition).0 in IsNumbered s'.sequencer s'.event_buffer
  unfolding broadcast create_envelope create
  broadcast_new-IsNumbered s r type p condition now n =
      push-IsNumbered s.sequencer s.event_buffer _ (current-next s.sequencer r r).0 n

  pub close_run-IsNumbered :
      (s : SseService J) (r : String)
      → IsNumbered s.sequencer s.event_buffer
      → let s' = (close_run s r).0 in IsNumbered s'.sequencer s'.event_buffer
  unfolding close_run Buffer.clear get_all_for_run
  close_run-IsNumbered s r n w =
      rw ((current-cleanup s.sequencer r w none).0, get-delete r w s.event_buffer.buffers)
        (by_run (r == w) refl)
    where
      by_run :
          (t : Bool)
          → (r == w) ≡ t
          → IsRising 0
              (if t then 0 else current s.sequencer w)
              (or_else (if t then none else get w s.event_buffer.buffers) [])
      by_run true t = omega arith
      by_run false t = n w
