-- ===== src/Sse/Service.antt =====
-- services/orchestrator/src/sse/sse.service.ts: sequence numbers, replay buffers and connections
-- together. `condition` says what each stream does when it is written to, `now` is the time.
pub mod Numbering
pub mod Requests
use minerva.Base.{ℕ, String, Option, none, some, List, []}
use minerva.Sse.{EventType, Payload, Envelope}
use minerva.Sse.Sequencer
use minerva.Sse.Sequencer.{EventSequencer}
use minerva.Sse.Buffer
use minerva.Sse.Buffer.{EventBuffer}
use minerva.Sse.Streams
use minerva.Sse.Streams.{StreamController, Cleanup, Condition, Effect}
use minerva.Sse.Mapper.{AgentEvent, map_event, map_orchestrator_event}

pub record SseService (J : Type 0) : Type 0 where
  pub sequencer : EventSequencer
  pub stream_controller : StreamController
  pub event_buffer : EventBuffer J

module _ {J : Type 0} where
  abbrev pub new : SseService J
  new = record {
    sequencer = record { counters = [] };
    stream_controller = record { streams = []; sets = [] };
    event_buffer = record { buffers = []; max_size = 1000 };
  }

  unfoldable pub register_stream : SseService J → String → String → SseService J × Cleanup
  register_stream s run_id stream =
      let (controller, cleanup) = Streams.register s.stream_controller run_id stream in
      (record s { stream_controller = controller }, cleanup)

  -- The event is buffered first.
  unfoldable pub broadcast :
      SseService J → String → Envelope J → (String → Condition) → SseService J × List (Effect J)
  broadcast s run_id event condition =
      let (controller, effects) = Streams.broadcast s.stream_controller run_id event condition in
      (
        record s {
          event_buffer = Buffer.push s.event_buffer event;
          stream_controller = controller;
        },
        effects,
      )

  unfoldable pub broadcast_agent_event :
      SseService J
      → String
      → AgentEvent J
      → (String → Condition)
      → ℕ
      → SseService J × List (Effect J)
  broadcast_agent_event s run_id agent_event condition now =
      let (sequencer, envelope) = map_event s.sequencer agent_event run_id now in
      let s' = record s { sequencer = sequencer } in
      elim envelope [ none ↦ (s', []) | some e ↦ broadcast s' run_id e condition ]

  unfoldable pub broadcast_orchestrator_event :
      SseService J
      → String
      → EventType
      → J
      → (String → Condition)
      → ℕ
      → SseService J × List (Effect J)
  broadcast_orchestrator_event s run_id type payload condition now =
      let (sequencer, envelope) = map_orchestrator_event s.sequencer run_id type payload now in
      broadcast (record s { sequencer = sequencer }) run_id envelope condition

  unfoldable pub close_run : SseService J → String → SseService J × List (Effect J)
  close_run s run_id =
      let (controller, effects) = Streams.close_run s.stream_controller run_id in
      (
        record {
          stream_controller = controller;
          event_buffer = Buffer.clear s.event_buffer run_id;
          sequencer = Sequencer.cleanup s.sequencer run_id;
        },
        effects,
      )

  unfoldable pub get_buffered_events_from : SseService J → ℕ → List (Envelope J)
  get_buffered_events_from s seq = Buffer.get_from s.event_buffer seq

  unfoldable pub get_connection_count : SseService J → String → ℕ
  get_connection_count s run_id = Streams.get_connection_count s.stream_controller run_id

  unfoldable pub get_total_connections : SseService J → ℕ
  get_total_connections s = Streams.get_total_connections s.stream_controller

  unfoldable pub get_current_seq : SseService J → String → ℕ
  get_current_seq s run_id = Sequencer.current s.sequencer run_id

  unfoldable pub create_envelope :
      SseService J → String → EventType → Payload J → ℕ → SseService J × Envelope J
  create_envelope s run_id type payload now =
      let (sequencer, envelope) = Sequencer.create s.sequencer run_id type payload now in
      (record s { sequencer = sequencer }, envelope)
