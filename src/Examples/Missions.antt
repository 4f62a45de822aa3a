-- ===== src/Examples/Missions.antt =====
-- The theorems on internal/missions at concrete inputs.
use c4isr_systems.Prelude.{◌≡◌, refl, true, Option, none, some, [], ◌∷◌, ◌++◌, All}
use c4isr_systems.Platform.Apperr.{ok, plain}
use c4isr_systems.Platform.Table.{find, put, DbError, failed, update_where}
use c4isr_systems.Missions.{
  planned, active, CreateInput, normalize, normalize_tasks, validate, validate_tasks, validate_task,
  normalize_task, can_transition,
}
use c4isr_systems.Missions.Store.{
  Query, create_mission_task, Env, Db, mission_created, create_row, create_task, assign_row, get,
  is_assigned, same_status, moved, update_row,
}
use c4isr_systems.Missions.Service.{check_assets, assign_all, create_all, create, update_status}
use c4isr_systems.Missions.Calls.{creates, moves, apply, apply_all, apply_all-AllHaveTimes}
use c4isr_systems.Missions.Times.{AllHaveTimes}
use c4isr_systems.Missions.Lifecycle.{Transition, update_status-Transition}
use c4isr_systems.Missions.Planning.{planned_row, IsAssigned, create_done, create_half_done}

abbrev quiet : Env
quiet = record {
  now = 70;
  new_id = "msn-1";
  new_task_id = λ n. "tsk-1";
  asset_exists = λ a. ok true;
  fault = λ q. none;
  others = λ db. db;
}

-- The insertion of the first task fails.
abbrev task_fault : Query → Option DbError
task_fault (create_mission_task n) = some (failed "connection lost")
task_fault _ = none

abbrev broken : Env
broken = record quiet { fault = task_fault }

abbrev empty_db : Db
empty_db = record { missions = []; tasks = []; assigned = []; outbox = [] }

abbrev survey : CreateInput
survey = record {
  name = " Survey ";
  objective = "north";
  priority = "";
  incident_id = "";
  actor = "op-1";
  assets = "drone-1" ∷ " drone-2" ∷ [];
  tasks = record { type = "scan"; description = ""; target = none } ∷ [];
}

moving_is_stored :
    find "msn-1"
      (apply_all
        ((quiet, creates survey) ∷ (quiet, moves "msn-1" active "op-1") ∷ [])
        empty_db).missions
    ≡ some (record (planned_row quiet (normalize survey)) { status = active; started_at = some 70 })
unfolding apply_all apply create update_status normalize normalize_tasks normalize_task validate
    validate_tasks validate_task check_assets assign_all create_all create_row assign_row
    is_assigned create_task get update_row update_where find put same_status can_transition moved
moving_is_stored = refl

apply_all-AllHaveTimes_example :
    AllHaveTimes
      (apply_all ((quiet, creates survey) ∷ (quiet, moves "msn-1" active "op-1") ∷ []) empty_db)
apply_all-AllHaveTimes_example =
    apply_all-AllHaveTimes ((quiet, creates survey) ∷ (quiet, moves "msn-1" active "op-1") ∷ [])
      empty_db (λ db h. h, (λ db h. h, tt)) tt

update_status-Transition_example :
    Transition quiet "msn-1" active "op-1"
      (create quiet survey empty_db).1
      (update_status quiet "msn-1" active "op-1" (create quiet survey empty_db).1)
update_status-Transition_example =
    update_status-Transition quiet "msn-1" active "op-1" (create quiet survey empty_db).1

create_done_example :
    (planned_row quiet (normalize survey) ≡ planned_row quiet (normalize survey))
    × (find "msn-1" (create quiet survey empty_db).1.missions
        ≡ some (planned_row quiet (normalize survey)))
    × All (IsAssigned (create quiet survey empty_db).1 "msn-1") (normalize survey).assets
    × ((create quiet survey empty_db).1.outbox
        ≡ []
          ++ mission_created "msn-1" (normalize survey).name planned (normalize survey).actor ∷ [])
unfolding create normalize normalize_tasks normalize_task validate validate_tasks validate_task
    check_assets assign_all create_all create_row assign_row is_assigned create_task get find put
create_done_example =
    create_done quiet survey empty_db {m = planned_row quiet (normalize survey)} refl

create_half_done_example :
    (find "msn-1" (create broken survey empty_db).1.missions
      ≡ some (planned_row broken (normalize survey)))
    × ((create broken survey empty_db).1.outbox ≡ [])
unfolding create normalize normalize_tasks normalize_task validate validate_tasks validate_task
    check_assets assign_all create_all create_row assign_row is_assigned create_task get find put
create_half_done_example =
    create_half_done broken survey empty_db {e = plain "connection lost"} refl refl refl refl refl
