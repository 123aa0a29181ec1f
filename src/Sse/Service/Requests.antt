-- ===== src/Sse/Service/Requests.antt =====
-- sse.service.ts: sequences of calls of the service. `broadcast` takes any envelope; here it is called
-- with one that `createEnvelope` has just made for the run.
use minerva.Base.{ℕ, String, List, [], ◌∷◌, arith}
use minerva.Dict.{get}
use minerva.Sse.{EventType, Payload}
use minerva.Sse.Sequencer.{current}
use minerva.Sse.Buffer.{get_all_for_run}
use minerva.Sse.Streams.{Condition}
use minerva.Sse.Mapper.{AgentEvent}
use minerva.Sse.Service.{
  SseService, new, register_stream, broadcast_agent_event, broadcast_orchestrator_event, close_run,
  create_envelope, broadcast,
}
use minerva.Sse.Service.Numbering.{
  IsNumbered, broadcast_agent_event-IsNumbered, broadcast_orchestrator_event-IsNumbered,
  create_envelope-IsNumbered, broadcast_new-IsNumbered, close_run-IsNumbered,
}

pub data Request (J : Type 0) : Type 0 where
  registering : String → String → Request J
  agent : String → AgentEvent J → (String → Condition) → ℕ → Request J
  orchestrator : String → EventType → J → (String → Condition) → ℕ → Request J
  custom : String → EventType → Payload J → ℕ → Request J
  sending : String → EventType → Payload J → (String → Condition) → ℕ → Request J
  closing : String → Request J

module _ {J : Type 0} where
  abbrev pub handle : SseService J → Request J → SseService J
  handle s (registering r stream) = (register_stream s r stream).0
  handle s (agent r e condition now) = (broadcast_agent_event s r e condition now).0
  handle s (orchestrator r type p condition now) =
      (broadcast_orchestrator_event s r type p condition now).0
  handle s (custom r type p now) = (create_envelope s r type p now).0
  handle s (sending r type p condition now) =
      let (s1, envelope) = create_envelope s r type p now in (broadcast s1 r envelope condition).0
  handle s (closing r) = (close_run s r).0

  abbrev pub handle_all : SseService J → List (Request J) → SseService J
  handle_all s [] = s
  handle_all s (request ∷ requests) = handle_all (handle s request) requests

  handle-IsNumbered :
      (s : SseService J) (request : Request J)
      → IsNumbered s.sequencer s.event_buffer
      → IsNumbered (handle s request).sequencer (handle s request).event_buffer
  unfolding register_stream
  handle-IsNumbered s (registering r stream) n = n
  handle-IsNumbered s (agent r e condition now) n =
      broadcast_agent_event-IsNumbered s r e condition now n
  handle-IsNumbered s (orchestrator r type p condition now) n =
      broadcast_orchestrator_event-IsNumbered s r type p condition now n
  handle-IsNumbered s (custom r type p now) n = create_envelope-IsNumbered s r type p now n
  handle-IsNumbered s (sending r type p condition now) n =
      broadcast_new-IsNumbered s r type p condition now n
  handle-IsNumbered s (closing r) n = close_run-IsNumbered s r n

  handle_all-IsNumbered :
      (requests : List (Request J)) (s : SseService J)
      → IsNumbered s.sequencer s.event_buffer
      → let s' = handle_all s requests in IsNumbered s'.sequencer s'.event_buffer
  handle_all-IsNumbered [] s n = n
  handle_all-IsNumbered (request ∷ requests) s n =
      handle_all-IsNumbered requests (handle s request) (handle-IsNumbered s request n)

  -- After any sequence of calls of a new service in which `broadcast` itself is called only with the
  -- envelope that `createEnvelope` has just made for the same run, the buffered events of every run
  -- have strictly rising numbers, from above 0 to at most the run's current number.
  pub IsNumbered-always :
      (requests : List (Request J))
      → let s = handle_all (new {J = J}) requests in IsNumbered s.sequencer s.event_buffer
  unfolding get_all_for_run current get
  IsNumbered-always requests = handle_all-IsNumbered requests new (λ r. omega arith)
