-- ===== src/Missions.antt =====
-- internal/missions/domain.go: objectives with their assets and tasks, and their lifecycle.
pub mod Store
pub mod Service
pub mod Times
pub mod Calls
pub mod Planning
pub mod Lifecycle
use c4isr_systems.Prelude.{
  ℕ, String, Bool, true, false, ◌||◌, ◌&&◌, not, Option, none, some, List, [], ◌∷◌, str_eq,
  trim_space, is_empty, if◌then◌else◌,
}
use c4isr_systems.Platform.Apperr.{Error, validation_error, conflict_error, text, transition}
use c4isr_systems.Platform.Geo.{Point, valid_point}

-- `other` is any text that names none of the states.
pub data Status : Type 0 where
  planned active completed aborted : Status
  other : String → Status

abbrev pub name : Status → String
name planned = "PLANNED"
name active = "ACTIVE"
name completed = "COMPLETED"
name aborted = "ABORTED"
name (other s) = s

pub data TaskStatus : Type 0 where
  task_pending task_active task_completed task_failed task_cancelled : TaskStatus
  task_other : String → TaskStatus

-- A mission without its assets and tasks, which are rows of their own.
pub record Mission : Type 0 where
  pub id : String
  pub name : String
  pub objective : String
  pub priority : String
  pub status : Status
  pub incident_id : String
  pub created_at : ℕ
  pub updated_at : ℕ
  pub started_at : Option ℕ
  pub ended_at : Option ℕ

pub record Task : Type 0 where
  pub id : String
  pub mission_id : String
  pub type : String
  pub description : String
  pub status : TaskStatus
  pub target : Option Point
  pub created_at : ℕ
  pub updated_at : ℕ

pub record TaskInput : Type 0 where
  pub type : String
  pub description : String
  pub target : Option Point

pub record CreateInput : Type 0 where
  pub name : String
  pub objective : String
  pub priority : String
  pub incident_id : String
  pub actor : String
  pub assets : List String
  pub tasks : List TaskInput

-- `TaskInput.Normalize`
unfoldable pub normalize_task : TaskInput → TaskInput
unfolding trim_space
normalize_task i = record i { type = trim_space i.type; description = trim_space i.description }

unfoldable pub normalize_tasks : List TaskInput → List TaskInput
normalize_tasks [] = []
normalize_tasks (i ∷ is) = normalize_task i ∷ normalize_tasks is

-- `CreateInput.Normalize`
unfoldable pub normalize : CreateInput → CreateInput
unfolding trim_space normalize_tasks
normalize i = record i {
  name = trim_space i.name;
  objective = trim_space i.objective;
  incident_id = trim_space i.incident_id;
  actor = trim_space i.actor;
  priority = if is_empty i.priority then "medium" else i.priority;
  tasks = normalize_tasks i.tasks;
}

-- `validPriority`
abbrev pub valid_priority : String → Bool
valid_priority p = str_eq p "low" || str_eq p "medium" || str_eq p "high" || str_eq p "critical"

abbrev is_off_globe : Option Point → Bool
is_off_globe none = false
is_off_globe (some p) = not (valid_point p)

-- `TaskInput.Validate`
unfoldable pub validate_task : TaskInput → Option Error
unfolding valid_point
validate_task i =
    if is_empty i.type
    then some (validation_error (text "task type is required"))
    else if is_off_globe i.target
    then some (validation_error (text "task target must be a valid WGS84 coordinate"))
    else none

-- The first task that is refused.
unfoldable pub validate_tasks : List TaskInput → Option Error
validate_tasks [] = none
validate_tasks (i ∷ is) =
    let rest = validate_tasks is in elim (validate_task i) [ none ↦ rest | some e ↦ some e ]

-- `CreateInput.Validate`
unfoldable pub validate : CreateInput → Option Error
unfolding validate_tasks
validate i =
    if is_empty i.name
    then some (validation_error (text "mission name is required"))
    else if not (valid_priority i.priority)
    then some
        (validation_error (text "mission priority must be one of low, medium, high, critical"))
    else validate_tasks i.tasks

-- `canTransition`
unfoldable pub can_transition : Status → Status → Bool
can_transition planned active = true
can_transition planned aborted = true
can_transition active completed = true
can_transition active aborted = true
can_transition _ _ = false

-- `invalidTransition`
abbrev pub invalid_transition : Status → Status → Error
invalid_transition from to = conflict_error (transition "mission" (name from) (name to))

-- `validStatus`
abbrev pub valid_status : Status → Bool
valid_status (other s) = false
valid_status _ = true

-- `validTaskStatus`
abbrev pub valid_task_status : TaskStatus → Bool
valid_task_status (task_other s) = false
valid_task_status _ = true
