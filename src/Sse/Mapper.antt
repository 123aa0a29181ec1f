-- ===== src/Sse/Mapper.antt =====
-- services/orchestrator/src/sse/mapper.ts and tool-events.ts: agent events, orchestrator events and
-- tool events become envelopes.
pub mod Known
use minerva.Base.{
  ℕ, ◌+◌, String, ◌≡◌, ◌≢◌, refl, Bool, true, false, Option, none, some, List, [], ◌∷◌, or_else,
  if◌then◌else◌, ◌==◌, arith, Option-cases,
}
use minerva.Sse.{
  EventType, agent_start, agent_end, turn_start, turn_end, message_start, message_update,
  message_end, tool_execution_start, tool_execution_update, tool_execution_end, DeltaType,
  text_delta, OutputType, stdout, PartialResult, MessageDelta, Payload, empty, opaque,
  agent_messages, turn_number, turn_result, message_body, message_delta, tool_call, tool_output,
  tool_result, Envelope, name,
}
use minerva.Sse.Sequencer.{EventSequencer, next, current, current-next}

pub record AgentEvent (J : Type 0) : Type 0 where
  pub type : String
  pub messages : Option (List J)
  pub turn_no : Option ℕ
  pub message : Option J
  pub tool_results : Option (List J)
  pub assistant_message_event : Option (MessageDelta J)
  pub tool_call_id : Option String
  pub tool_name : Option String
  pub args : Option (List (String × J))
  pub partial_result : Option PartialResult
  pub result : Option J
  pub is_error : Option Bool
  pub duration_ms : Option ℕ

abbrev no_output : PartialResult
no_output = record { type = stdout; text = "" }

module _ {J : Type 0} where
  abbrev delta_type : Option (MessageDelta J) → DeltaType
  delta_type none = text_delta
  delta_type (some d) = d.type

  -- The cases of the `switch`, by the text of the type.
  unfoldable pub payload_of : AgentEvent J → Option (EventType × Payload J)
  payload_of e =
      if e.type == "agent_start"
      then some (agent_start, empty)
      else if e.type == "agent_end"
      then some (agent_end, agent_messages (or_else e.messages []))
      else if e.type == "turn_start"
      then some (turn_start, turn_number (or_else e.turn_no 0))
      else if e.type == "turn_end"
      then some (turn_end, turn_result (or_else e.turn_no 0) e.message (or_else e.tool_results []))
      else if e.type == "message_start"
      then some (message_start, message_body e.message)
      else if e.type == "message_update"
      then some (
        message_update,
        message_delta e.message (delta_type e.assistant_message_event) e.assistant_message_event,
      )
      else if e.type == "message_end"
      then some (message_end, message_body e.message)
      else if e.type == "tool_execution_start"
      then some (
        tool_execution_start,
        tool_call (or_else e.tool_call_id "") (or_else e.tool_name "") (or_else e.args []),
      )
      else if e.type == "tool_execution_update"
      then some (
        tool_execution_update,
        tool_output (or_else e.tool_call_id "") (or_else e.tool_name "")
            (or_else e.partial_result no_output),
      )
      else if e.type == "tool_execution_end"
      then some (
        tool_execution_end,
        tool_result (or_else e.tool_call_id "") (or_else e.tool_name "") e.result
            (or_else e.is_error false) (or_else e.duration_ms 0),
      )
      else none

  wrap : String → ℕ → ℕ → Option (EventType × Payload J) → Option (Envelope J)
  wrap run_id ts seq none = none
  wrap run_id ts seq (some (type, payload)) =
      some (record { type = type; run_id = run_id; ts = ts; seq = seq; payload = payload })

  -- The number is drawn before the type is looked at.
  unfoldable pub map_event :
      EventSequencer → AgentEvent J → String → ℕ → EventSequencer × Option (Envelope J)
  unfolding wrap
  map_event s e run_id now =
      let (s', seq) = next s run_id in (s', wrap run_id now seq (payload_of e))

  unfoldable pub map_orchestrator_event :
      EventSequencer → String → EventType → J → ℕ → EventSequencer × Envelope J
  map_orchestrator_event s run_id type payload now =
      let (s', seq) = next s run_id in
      (s', record { type = type; run_id = run_id; ts = now; seq = seq; payload = opaque payload })

  -- `createToolEventEmitter`: the three events of a tool call.
  unfoldable pub emit_start :
      EventSequencer
      → String
      → String
      → String
      → List (String × J)
      → ℕ
      → EventSequencer × Envelope J
  emit_start s run_id tool_call_id tool_name args now =
      let (s', seq) = next s run_id in
      (
        s',
        record {
          type = tool_execution_start;
          run_id = run_id;
          ts = now;
          seq = seq;
          payload = tool_call tool_call_id tool_name args;
        },
      )

  unfoldable pub emit_update :
      EventSequencer → String → String → String → PartialResult → ℕ → EventSequencer × Envelope J
  emit_update s run_id tool_call_id tool_name partial_result now =
      let (s', seq) = next s run_id in
      (
        s',
        record {
          type = tool_execution_update;
          run_id = run_id;
          ts = now;
          seq = seq;
          payload = tool_output tool_call_id tool_name partial_result;
        },
      )

  unfoldable pub emit_end :
      EventSequencer
      → String
      → String
      → String
      → Option J
      → Bool
      → ℕ
      → ℕ
      → EventSequencer × Envelope J
  emit_end s run_id tool_call_id tool_name result is_error duration_ms now =
      let (s', seq) = next s run_id in
      (
        s',
        record {
          type = tool_execution_end;
          run_id = run_id;
          ts = now;
          seq = seq;
          payload = tool_result tool_call_id tool_name result is_error duration_ms;
        },
      )
