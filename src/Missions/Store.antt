-- ===== src/Missions/Store.antt =====
-- internal/missions/postgres_repository.go over the queries of db/queries/missions.sql.
use c4isr_systems.Prelude.{
  ℕ, String, Bool, true, false, ◌&&◌, ◌||◌, Option, none, some, List, [], ◌∷◌, str_eq,
  if◌then◌else◌,
}
use c4isr_systems.Platform.Apperr.{
  Error, Result, ok, err, bad_request_error, not_found_error, conflict_error, plain, text, labelled,
}
use c4isr_systems.Platform.Table.{Table, find, put, update_where, DbError, foreign_key, raw}
use c4isr_systems.Missions.{
  Status, planned, active, completed, aborted, other, TaskStatus, Mission, Task,
}

-- The queries, each of which may fail: one for every asset that is assigned, by its id, and one
-- for every task of a call, by its place.
pub data Query : Type 0 where
  create_mission get_mission list_assets list_tasks : Query
  update_mission recheck_mission update_task : Query
  assign_to_mission : String → Query
  create_mission_task : ℕ → Query

-- The events that the service publishes (internal/events/events.go).
pub data Event : Type 0 where
  mission_created : (mission_id name : String) (status : Status) (actor : String) → Event
  mission_updated : (mission_id : String) (status : Status) (actor : String) → Event

-- The tables missions, mission_tasks and mission_assets, and the events published so far.
pub record Db : Type 0 where
  pub missions : Table Mission
  pub tasks : Table Task
  pub assigned : List (String × String)
  pub outbox : List Event

-- What one call finds outside: the database's clock, the new ids, the asset registry, the failures
-- of the queries, and what other writers do between its read and its write. That a foreign key is
-- violated is such a failure.
pub record Env : Type 0 where
  pub now : ℕ
  pub new_id : String
  pub new_task_id : ℕ → String
  pub asset_exists : String → Result Bool
  pub fault : Query → Option DbError
  pub others : Db → Db

-- `status = @expected_status`
unfoldable pub same_status : Status → Status → Bool
same_status planned planned = true
same_status active active = true
same_status completed completed = true
same_status aborted aborted = true
same_status (other s) (other t) = str_eq s t
same_status _ _ = false

abbrev create_error : String → DbError → Error
create_error incident (foreign_key name) =
    bad_request_error (labelled "unknown incident: " incident)
create_error incident e = raw e

-- `Create`
unfoldable pub create_row : Env → Mission → Db → Result Mission × Db
create_row env m db = elim (env.fault create_mission) [
  | some e ↦ (err (create_error m.incident_id e), db)
  | none ↦ elim (find m.id db.missions) [
    | some old ↦ (err (plain "missions_pkey"), db)
    | none ↦
        let row = record m {
          created_at = env.now;
          updated_at = env.now;
          started_at = none;
          ended_at = none;
        } in
        (ok row, record db { missions = put m.id row db.missions })
  ]
]

-- The two lists that fill a mission's assets and tasks.
abbrev with_relations : Env → Mission → Result Mission
with_relations env m = elim (env.fault list_assets) [
  | some e ↦ err (raw e)
  | none ↦ elim (env.fault list_tasks) [ some e ↦ err (raw e) | none ↦ ok m ]
]

abbrev pub fetch : Env → Query → String → Db → Result Mission
fetch env q id db = elim (env.fault q) [
  | some e ↦ err (raw e)
  | none ↦ elim (find id db.missions) [
    | none ↦ err (not_found_error "mission" id)
    | some m ↦ with_relations env m
  ]
]

-- `Get`
unfoldable pub get : Env → String → Db → Result Mission
get env id db = fetch env get_mission id db

-- CASE WHEN @status = 'ACTIVE' AND started_at IS NULL THEN now() ELSE started_at END
abbrev pub started : ℕ → Status → Option ℕ → Option ℕ
started now active none = some now
started now to at = at

-- CASE WHEN @status IN ('COMPLETED', 'ABORTED') THEN now() ELSE ended_at END
abbrev pub ended : ℕ → Status → Option ℕ → Option ℕ
ended now completed at = some now
ended now aborted at = some now
ended now to at = at

-- The SET clause of UpdateMissionStatus.
unfoldable pub moved : ℕ → Status → Mission → Mission
moved now to m = record m {
  status = to;
  updated_at = now;
  started_at = started now to m.started_at;
  ended_at = ended now to m.ended_at;
}

-- After an update that found no row: `Get` once more tells a missing id from a lost race.
abbrev pub explain : Result Mission → Result Mission
explain (err e) = err e
explain (ok m) = err (conflict_error (text "mission status changed concurrently"))

abbrev pub written : Env → String → Db → Option (Mission × Table Mission) → Result Mission × Db
written env id db none = (explain (fetch env recheck_mission id db), db)
written env id db (some (m, t)) = (ok m, record db { missions = t })

-- `UpdateStatus`
unfoldable pub update_row : Env → String → Status → Status → Db → Result Mission × Db
update_row env id to expected db = elim (env.fault update_mission) [
  | some e ↦ (err (raw e), db)
  | none ↦
      written env id db
        (update_where id (λ m. same_status m.status expected) (moved env.now to) db.missions)
]

unfoldable pub is_assigned : String → String → List (String × String) → Bool
is_assigned m a [] = false
is_assigned m a ((n, b) ∷ rest) = (str_eq n m && str_eq b a) || is_assigned m a rest

-- INSERT ... ON CONFLICT DO NOTHING
abbrev pub with_asset : String → String → List (String × String) → List (String × String)
with_asset m a rows = if is_assigned m a rows then rows else (m, a) ∷ rows

abbrev assign_error : String → DbError → Error
assign_error asset (foreign_key name) = bad_request_error (labelled "unknown asset: " asset)
assign_error asset e = raw e

-- `AssignAsset`: the error, if there is one.
unfoldable pub assign_row : Env → String → String → Db → Option Error × Db
unfolding is_assigned
assign_row env m a db = elim (env.fault (assign_to_mission a)) [
  | some e ↦ (some (assign_error a e), db)
  | none ↦ (none, record db { assigned = with_asset m a db.assigned })
]

abbrev task_error : String → DbError → Error
task_error mission (foreign_key name) = bad_request_error (labelled "unknown mission: " mission)
task_error mission e = raw e

-- `CreateTask`, the one of this place in the call.
unfoldable pub create_task : Env → ℕ → Task → Db → Result Task × Db
create_task env n task db = elim (env.fault (create_mission_task n)) [
  | some e ↦ (err (task_error task.mission_id e), db)
  | none ↦ elim (find task.id db.tasks) [
    | some old ↦ (err (plain "mission_tasks_pkey"), db)
    | none ↦
        let row = record task { created_at = env.now; updated_at = env.now } in
        (ok row, record db { tasks = put task.id row db.tasks })
  ]
]

abbrev changed_task : String → Db → Option (Task × Table Task) → Result Task × Db
changed_task id db none = (err (not_found_error "mission task" id), db)
changed_task id db (some (task, t)) = (ok task, record db { tasks = t })

-- `UpdateTaskStatus`
unfoldable pub update_task_row : Env → String → String → TaskStatus → Db → Result Task × Db
update_task_row env mission id to db = elim (env.fault update_task) [
  | some e ↦ (err (raw e), db)
  | none ↦ changed_task id db (
      update_where id (λ task. str_eq task.mission_id mission)
        (λ task. record task { status = to; updated_at = env.now }) db.tasks)
]
