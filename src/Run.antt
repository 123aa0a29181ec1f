-- ===== src/Run.antt =====
-- services/orchestrator/src/types/run.ts and errors.ts: the run entity, its states and errors.
pub mod Transitions
use minerva.Base.{
  ℕ, String, Bool, true, false, Option, none, some, List, [], ◌∷◌, ◌||◌, if◌then◌else◌,
}
use minerva.Owner.{OwnerPrincipal}

pub data RunState : Type 0 where
  queued leased running completed failed cancelled timed_out : RunState

pub data Role : Type 0 where
  system user assistant tool : Role

-- An entry of `toolCalls`: the call's `function` object is flattened.
pub record ToolCall : Type 0 where
  pub id : String
  pub type : String
  pub name : String
  pub arguments : String

pub record AgentMessage : Type 0 where
  pub role : Role
  pub content : String
  pub tool_calls : Option (List ToolCall)
  pub tool_call_id : Option String

-- Times are milliseconds since the epoch.
pub record Run : Type 0 where
  pub id : String
  pub owner : OwnerPrincipal
  pub user_id : String
  pub state : RunState
  pub queue_position : Option ℕ
  pub lease_token : Option String
  pub lease_expires_at : Option ℕ
  pub created_at : ℕ
  pub started_at : Option ℕ
  pub completed_at : Option ℕ
  pub timeout_at : Option ℕ
  pub max_duration_ms : ℕ
  pub agent_pack_id : String
  pub prompt : String
  pub error : Option String
  pub final_messages : Option (List AgentMessage)

pub record RunMetadata : Type 0 where
  pub run_id : String
  pub state : RunState
  pub created_at : ℕ
  pub started_at : Option ℕ
  pub completed_at : Option ℕ
  pub queue_position : Option ℕ
  pub error : Option String

pub record CreateRunInput : Type 0 where
  pub owner : Option OwnerPrincipal
  pub user_id : Option String
  pub agent_pack_id : String
  pub prompt : String
  pub max_duration_ms : Option ℕ

-- The errors that the run manager throws.
pub data RunError : Type 0 where
  run_not_found : String → RunError
  invalid_state_transition : String → RunState → RunState → RunError

unfoldable pub state_eq : RunState → RunState → Bool
state_eq queued queued = true
state_eq leased leased = true
state_eq running running = true
state_eq completed completed = true
state_eq failed failed = true
state_eq cancelled cancelled = true
state_eq timed_out timed_out = true
state_eq _ _ = false

unfoldable pub member : RunState → List RunState → Bool
unfolding state_eq
member s [] = false
member s (x ∷ xs) = state_eq x s || member s xs

-- `VALID_STATE_TRANSITIONS`
unfoldable pub valid_state_transitions : RunState → List RunState
valid_state_transitions queued = leased ∷ cancelled ∷ []
valid_state_transitions leased = running ∷ failed ∷ cancelled ∷ []
valid_state_transitions running = completed ∷ failed ∷ cancelled ∷ timed_out ∷ []
valid_state_transitions completed = []
valid_state_transitions failed = []
valid_state_transitions cancelled = []
valid_state_transitions timed_out = []

unfoldable pub is_valid_state_transition : RunState → RunState → Bool
unfolding member valid_state_transitions
is_valid_state_transition from to = member to (valid_state_transitions from)

unfoldable pub get_valid_next_states : RunState → List RunState
unfolding valid_state_transitions
get_valid_next_states state = valid_state_transitions state

unfoldable pub is_terminal_state : RunState → Bool
unfolding member
is_terminal_state state = member state (completed ∷ failed ∷ cancelled ∷ timed_out ∷ [])

unfoldable pub is_active_state : RunState → Bool
unfolding member
is_active_state state = member state (leased ∷ running ∷ [])
