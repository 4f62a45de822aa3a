-- ===== src/Incidents.antt =====
-- internal/incidents/domain.go and repository.go: operational situations and their evidence.
pub mod Store
pub mod Service
pub mod Opening
pub mod Moves
pub mod Stamps
use c4isr_systems.Prelude.{
  ℕ, String, Bool, true, false, ◌&&◌, ◌||◌, not, Option, none, some, List, trim_space, is_empty,
  str_eq, if◌then◌else◌,
}
use c4isr_systems.Platform.Apperr.{Error, validation_error, conflict_error, text, transition}

-- `other` is any text that names none of the statuses.
pub data Status : Type 0 where
  opened acknowledged investigating responding resolved closed : Status
  other : String → Status

-- The text of a status.
abbrev pub status_name : Status → String
status_name opened = "OPEN"
status_name acknowledged = "ACKNOWLEDGED"
status_name investigating = "INVESTIGATING"
status_name responding = "RESPONDING"
status_name resolved = "RESOLVED"
status_name closed = "CLOSED"
status_name (other s) = s

-- A text column that is NULL is the empty text. A priority is its text.
pub record Incident : Type 0 where
  pub id : String
  pub title : String
  pub description : String
  pub priority : String
  pub status : Status
  pub assigned_operator : String
  pub created_at : ℕ
  pub updated_at : ℕ
  pub resolved_at : Option ℕ
  pub closed_at : Option ℕ

-- The kinds of evidence.
pub data Kind : Type 0 where
  alert track asset observation assessment : Kind

pub record RelationIds : Type 0 where
  pub alert_ids : List String
  pub track_ids : List String
  pub asset_ids : List String
  pub observation_ids : List String
  pub assessment_ids : List String

pub record CreateInput : Type 0 where
  pub title : String
  pub description : String
  pub priority : String
  pub relations : RelationIds
  pub actor : String

-- `CreateInput.Normalize`
unfoldable pub normalize_create : CreateInput → CreateInput
unfolding trim_space
normalize_create i = record i {
  title = trim_space i.title;
  description = trim_space i.description;
  actor = trim_space i.actor;
  priority = if is_empty i.priority then "medium" else i.priority;
}

-- `validPriority`
unfoldable pub valid_priority : String → Bool
valid_priority p = str_eq p "low" || (str_eq p "medium" || (str_eq p "high" || str_eq p "critical"))

abbrev pub priority_error : Error
priority_error =
    validation_error (text "incident priority must be one of low, medium, high, critical")

-- `CreateInput.Validate`
unfoldable pub validate_create : CreateInput → Option Error
validate_create i =
    if is_empty i.title
    then some (validation_error (text "incident title is required"))
    else if valid_priority i.priority
    then none
    else some priority_error

pub record UpdateInput : Type 0 where
  pub title : String
  pub description : String
  pub priority : String
  pub assigned_operator : String

-- `UpdateInput.Normalize`
unfoldable pub normalize_update : UpdateInput → UpdateInput
unfolding trim_space
normalize_update i = record i {
  title = trim_space i.title;
  description = trim_space i.description;
  assigned_operator = trim_space i.assigned_operator;
}

-- `UpdateInput.Validate`
unfoldable pub validate_update : UpdateInput → Option Error
validate_update i =
    if not (is_empty i.priority) && not (valid_priority i.priority)
    then some priority_error
    else none

-- `canTransition`
unfoldable pub can_move : Status → Status → Bool
can_move opened acknowledged = true
can_move opened investigating = true
can_move opened closed = true
can_move acknowledged investigating = true
can_move acknowledged responding = true
can_move acknowledged closed = true
can_move investigating responding = true
can_move investigating resolved = true
can_move investigating closed = true
can_move responding investigating = true
can_move responding resolved = true
can_move responding closed = true
can_move resolved investigating = true
can_move resolved closed = true
can_move _ _ = false

-- `invalidTransition`
unfoldable pub invalid_move : Status → Status → Error
invalid_move from to = conflict_error (transition "incident" (status_name from) (status_name to))

-- `validStatus`
unfoldable pub valid_status : Status → Bool
valid_status (other s) = false
valid_status _ = true
