-- ===== src/Commands.antt =====
-- internal/commands/domain.go: instructions to assets and their lifecycle.
pub mod Graph
pub mod Store
pub mod Service
pub mod Safety
pub mod History
pub mod Issue
use c4isr_systems.Prelude.{
  ℕ, String, Bool, true, false, Option, none, some, trim_space, is_empty, if◌then◌else◌,
}
use c4isr_systems.Platform.Apperr.{Error, validation_error, conflict_error, text, transition}

-- `other` is any text that names none of the states.
pub data State : Type 0 where
  created queued sent acknowledged completed rejected failed timed_out cancelled : State
  other : String → State

-- The text of a state.
abbrev pub name : State → String
name created = "CREATED"
name queued = "QUEUED"
name sent = "SENT"
name acknowledged = "ACKNOWLEDGED"
name completed = "COMPLETED"
name rejected = "REJECTED"
name failed = "FAILED"
name timed_out = "TIMED_OUT"
name cancelled = "CANCELLED"
name (other s) = s

-- A command. A text column that is NULL is the empty text; the payload is its JSON document.
pub record Command : Type 0 where
  pub id : String
  pub asset_id : String
  pub mission_id : String
  pub incident_id : String
  pub type : String
  pub payload : String
  pub state : State
  pub created_by : String
  pub correlation_id : String
  pub created_at : ℕ
  pub updated_at : ℕ
  pub queued_at : Option ℕ
  pub sent_at : Option ℕ
  pub acknowledged_at : Option ℕ
  pub completed_at : Option ℕ
  pub failure_reason : String

pub record IssueInput : Type 0 where
  pub asset_id : String
  pub mission_id : String
  pub incident_id : String
  pub type : String
  pub payload : Option String
  pub actor : String
  pub correlation_id : String

-- A payload that is nil becomes the empty object.
abbrev payload_or_empty : Option String → Option String
payload_or_empty none = some "{}"
payload_or_empty (some p) = some p

-- `IssueInput.Normalize`
unfoldable pub normalize : IssueInput → IssueInput
unfolding trim_space
normalize i = record {
  asset_id = trim_space i.asset_id;
  mission_id = trim_space i.mission_id;
  incident_id = trim_space i.incident_id;
  type = trim_space i.type;
  payload = payload_or_empty i.payload;
  actor = trim_space i.actor;
  correlation_id = trim_space i.correlation_id;
}

-- `IssueInput.Validate`
unfoldable pub validate : IssueInput → Option Error
validate i =
    if is_empty i.asset_id
    then some (validation_error (text "assetId is required"))
    else if is_empty i.type
    then some (validation_error (text "command type is required"))
    else none

-- `CanTransition`
unfoldable pub can_transition : State → State → Bool
can_transition created queued = true
can_transition created sent = true
can_transition created cancelled = true
can_transition queued sent = true
can_transition queued cancelled = true
can_transition sent acknowledged = true
can_transition sent rejected = true
can_transition sent failed = true
can_transition sent timed_out = true
can_transition sent cancelled = true
can_transition acknowledged completed = true
can_transition acknowledged failed = true
can_transition acknowledged cancelled = true
can_transition _ _ = false

-- `IsTerminal`
unfoldable pub is_terminal : State → Bool
is_terminal completed = true
is_terminal rejected = true
is_terminal failed = true
is_terminal timed_out = true
is_terminal cancelled = true
is_terminal _ = false

-- `validState`
unfoldable pub valid_state : State → Bool
valid_state (other s) = false
valid_state _ = true

unfoldable pub invalid_transition : State → State → Error
invalid_transition from to = conflict_error (transition "command" (name from) (name to))
