-- ===== src/Tests/Events.antt =====
-- The results about services/orchestrator/src/sse at concrete inputs.
use minerva.Base.{
  ℕ, String, ◌+◌, ◌≡◌, ◌≤◌, ◌↔◌, ◌⊎◌, refl, true, false, not, ◌&&◌, none, some, List, [], ◌∷◌, ◌++◌,
  if◌then◌else◌, ◌==◌, includes, IsDistinct,
}
use minerva.Dict.{get, values}
use minerva.Owner.{OwnerPrincipal, same_owner_principal}
use minerva.Sse.{
  name, run_queued, run_started, agent_start, stream_connected, empty, opaque, Envelope,
}
use minerva.Sse.Sequencer.{current, create_at, next}
use minerva.Sse.Buffer.{EventBuffer, get_all_for_run, get_from}
use minerva.Sse.Buffer.Window.{last_n, of_run, push_all, push_all_window}
use minerva.Sse.Buffer.Replay.{In, InSome, IsAscending, get_from_lem}
use minerva.Sse.Mapper.{AgentEvent, map_event, payload_of}
use minerva.Sse.Mapper.Known.{map_event_lem}
use minerva.Sse.Streams.{
  StreamController, Condition, takes_writes, is_closed, is_open, has_failed, register, clean_up,
  broadcast, connected,
}
use minerva.Sse.Streams.Delivery.{written_to, broadcast_lem}
use minerva.Sse.Streams.Stale.{stale_cleanup}
use minerva.Sse.Service.{SseService, new}
use minerva.Sse.Service.Numbering.{IsNumbered}
use minerva.Sse.Service.Requests.{
  Request, agent, orchestrator, custom, closing, sending, handle_all, IsNumbered-always,
}
use minerva.Sse.Controller.{is_visible, stream_events, written, replay_is_not_filtered}
use minerva.Tests.Manager.{r1_queued}

abbrev all_open : String → Condition
all_open s = takes_writes

abbrev first_event : Envelope ℕ
first_event = record { type = run_queued; run_id = "r1"; ts = 5; seq = 1; payload = opaque 7 }

abbrev other_event : Envelope ℕ
other_event = record { type = run_started; run_id = "r2"; ts = 6; seq = 4; payload = opaque 8 }

abbrev two_runs : EventBuffer ℕ
two_runs = record {
  buffers = ("r1", first_event ∷ []) ∷ ("r2", other_event ∷ []) ∷ [];
  max_size = 1;
}

abbrev agent_event : AgentEvent ℕ
agent_event = record {
  type = "agent_start";
  messages = none;
  turn_no = none;
  message = none;
  tool_results = none;
  assistant_message_event = none;
  tool_call_id = none;
  tool_name = none;
  args = none;
  partial_result = none;
  result = none;
  is_error = none;
  duration_ms = none;
}

abbrev requests : List (Request ℕ)
requests =
    orchestrator "r1" run_queued 7 all_open 5
    ∷ agent "r1" agent_event all_open 6
    ∷ custom "r2" stream_connected empty 7
    ∷ sending "r2" run_queued empty all_open 8
    ∷ closing "r1"
    ∷ []

IsNumbered-always_example : let s = handle_all new requests in IsNumbered s.sequencer s.event_buffer
IsNumbered-always_example = IsNumbered-always requests

push_all_window_example :
    get_all_for_run (push_all two_runs (other_event ∷ first_event ∷ [])) "r1"
    ≡ last_n 1 ((first_event ∷ []) ++ of_run "r1" (other_event ∷ first_event ∷ []))
unfolding get_all_for_run get
push_all_window_example =
    push_all_window (other_event ∷ first_event ∷ []) two_runs "r1" (first_event ∷ []) refl

get_from_lem_example :
    IsAscending 2 (get_from two_runs 2)
    × (In other_event (get_from two_runs 2)
        ↔ (InSome other_event (values two_runs.buffers) × (2 ≤ other_event.seq)))
get_from_lem_example = get_from_lem two_runs 2 other_event

abbrev service : SseService ℕ
service = record new { event_buffer = two_runs }

abbrev ann : OwnerPrincipal
ann = record { tenant_id = "legacy"; subject_id = "ann" }

ann_sees_r1 : is_visible (some r1_queued) ann ≡ true
unfolding is_visible same_owner_principal
ann_sees_r1 = refl

replay_is_not_filtered_example :
    In other_event (written (stream_events service "r1" (some r1_queued) ann (some 2) empty "c" 9))
    ↔ ((InSome other_event (values two_runs.buffers) × (2 ≤ 4))
        ⊎ (other_event
            ≡ create_at "r1" stream_connected empty (current service.sequencer "r1" + 1) 9))
replay_is_not_filtered_example =
    replay_is_not_filtered service "r1" (some r1_queued) ann 2 empty "c" 9 other_event ann_sees_r1

abbrev two_clients : StreamController
two_clients = record { streams = ("r1", 0) ∷ []; sets = ("a" ∷ "b" ∷ []) ∷ [] }

abbrev b_is_closed : String → Condition
b_is_closed s = elim (includes s ("b" ∷ [])) [ true ↦ is_closed | false ↦ takes_writes ]

IsDistinct-clients : IsDistinct (connected two_clients "r1")
unfolding connected get
IsDistinct-clients = (refl, (refl, tt))

broadcast_lem_example :
    (written_to "a" (broadcast two_clients "r1" first_event b_is_closed).1 ≡ (
      if includes "a" (connected two_clients "r1") && is_open (b_is_closed "a")
      then first_event ∷ []
      else []))
    × (includes "a" (connected (broadcast two_clients "r1" first_event b_is_closed).0 "r1")
        ≡ (includes "a" (connected two_clients "r1") && not (has_failed (b_is_closed "a"))))
broadcast_lem_example =
    broadcast_lem two_clients "r1" first_event b_is_closed "a" IsDistinct-clients

abbrev no_clients : StreamController
no_clients = record { streams = []; sets = [] }

stale_cleanup_example :
    let (c1, cleanup) = register no_clients "r1" "a" in
    let c2 = (clean_up {J = ℕ} c1 cleanup all_open).0 in
    let c3 = (register c2 "r1" "b").0 in
    (connected c3 "r1" ≡ "b" ∷ []) × (connected (clean_up {J = ℕ} c3 cleanup all_open).0 "r1" ≡ [])
unfolding get
stale_cleanup_example = stale_cleanup ℕ no_clients "r1" "a" "b" all_open refl

abbrev start_envelope : Envelope ℕ
start_envelope = record { type = agent_start; run_id = "r1"; ts = 9; seq = 1; payload = empty }

map_event_lem_example :
    ((name agent_start ≡ "agent_start")
      × (start_envelope.run_id ≡ "r1")
      × (start_envelope.seq ≡ current service.sequencer "r1" + 1)
      × (start_envelope.ts ≡ 9))
    × (current (map_event service.sequencer agent_event "r1" 9).0 "r2" ≡ (
        if "r1" == "r2"
        then current service.sequencer "r1" + 1
        else current service.sequencer "r2"))
unfolding map_event payload_of next get
map_event_lem_example = map_event_lem service.sequencer agent_event "r1" "r2" 9 start_envelope refl
