-- ===== src/Sse.antt =====
-- services/orchestrator/src/sse/types.ts: the events that are streamed to clients. `J` stands for the
-- values of type `unknown`, which the code passes on without looking into them.
pub mod Sequencer
pub mod Mapper
pub mod Buffer
pub mod Streams
pub mod Service
pub mod Controller
use text.Mathlib.Text.{starts_with}
use minerva.Base.{
  ℕ, String, Bool, true, false, Option, none, some, List, [], ◌∷◌, ◌||◌, ◌==◌, if◌then◌else◌,
}

pub data EventType : Type 0 where
  run_queued run_started run_completed run_failed run_cancelled run_timed_out : EventType
  stream_connected : EventType
  agent_start agent_end turn_start turn_end : EventType
  message_start message_update message_end : EventType
  tool_execution_start tool_execution_update tool_execution_end : EventType

pub data EventCategory : Type 0 where
  orchestrator agent turn message tool : EventCategory

-- The text of an event type.
unfoldable pub name : EventType → String
name run_queued = "run_queued"
name run_started = "run_started"
name run_completed = "run_completed"
name run_failed = "run_failed"
name run_cancelled = "run_cancelled"
name run_timed_out = "run_timed_out"
name stream_connected = "stream_connected"
name agent_start = "agent_start"
name agent_end = "agent_end"
name turn_start = "turn_start"
name turn_end = "turn_end"
name message_start = "message_start"
name message_update = "message_update"
name message_end = "message_end"
name tool_execution_start = "tool_execution_start"
name tool_execution_update = "tool_execution_update"
name tool_execution_end = "tool_execution_end"

unfoldable pub get_event_category : EventType → EventCategory
unfolding name
get_event_category type =
    if starts_with (name type) "run_" || name type == "stream_connected"
    then orchestrator
    else if starts_with (name type) "agent_"
    then agent
    else if starts_with (name type) "turn_"
    then turn
    else if starts_with (name type) "message_"
    then message
    else if starts_with (name type) "tool_execution_"
    then tool
    else orchestrator

pub data DeltaType : Type 0 where
  text_delta thinking_delta toolcall_start toolcall_delta : DeltaType

pub data OutputType : Type 0 where
  stdout stderr progress : OutputType

pub record PartialResult : Type 0 where
  pub type : OutputType
  pub text : String

pub record MessageDelta (J : Type 0) : Type 0 where
  pub type : DeltaType
  pub delta : Option String
  pub content : Option J

-- The payloads, one constructor for each shape; `opaque` is a payload that the caller made.
pub data Payload (J : Type 0) : Type 0 where
  empty : Payload J
  opaque : J → Payload J
  agent_messages : List J → Payload J
  turn_number : ℕ → Payload J
  turn_result : ℕ → Option J → List J → Payload J
  message_body : Option J → Payload J
  message_delta : Option J → DeltaType → Option (MessageDelta J) → Payload J
  tool_call : String → String → List (String × J) → Payload J
  tool_output : String → String → PartialResult → Payload J
  tool_result : String → String → Option J → Bool → ℕ → Payload J

-- `SSEEventEnvelope`; the time stands for its ISO text.
pub record Envelope (J : Type 0) : Type 0 where
  pub type : EventType
  pub run_id : String
  pub ts : ℕ
  pub seq : ℕ
  pub payload : Payload J
