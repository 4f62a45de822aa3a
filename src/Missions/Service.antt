-- ===== src/Missions/Service.antt =====
-- internal/missions/service.go: planning a mission and taking it through its lifecycle.
use c4isr_systems.Prelude.{
  ℕ, suc, String, Bool, true, false, Option, none, some, List, [], ◌∷◌, ◌++◌, trim_space, is_empty,
  if◌then◌else◌,
}
use c4isr_systems.Platform.Apperr.{Error, Result, ok, err, validation_error, text, labelled}
use c4isr_systems.Missions.{
  Status, planned, TaskStatus, task_pending, Mission, Task, CreateInput, TaskInput, normalize,
  normalize_task, validate, validate_task, can_transition, invalid_transition, valid_status,
  valid_task_status,
}
use c4isr_systems.Missions.Store.{
  Env, Db, Event, mission_created, mission_updated, create_row, get, update_row, assign_row,
  create_task, update_task_row,
}

abbrev pub publish : Event → Db → Db
publish e db = record db { outbox = db.outbox ++ e ∷ [] }

-- Whether the registry knows this asset; the error if not.
abbrev pub unknown_asset : String → Result Bool → Option Error
unknown_asset a (err e) = some e
unknown_asset a (ok false) = some (validation_error (labelled "unknown asset: " a))
unknown_asset a (ok true) = none

-- The first loop of `Create`: every asset has an id and is known.
unfoldable pub check_assets : Env → List String → Option Error
unfolding trim_space
check_assets env [] = none
check_assets env (a ∷ more) =
    let rest = check_assets env more in
    if is_empty (trim_space a)
    then some (validation_error (text "asset id is required"))
    else elim (unknown_asset (trim_space a) (env.asset_exists (trim_space a))) [
      | some e ↦ some e
      | none ↦ rest
    ]

-- The second loop: they are assigned, until one fails.
unfoldable pub assign_all : Env → String → List String → Db → Option Error × Db
unfolding assign_row trim_space
assign_all env m [] db = (none, db)
assign_all env m (a ∷ more) db =
    let step = assign_row env m (trim_space a) db in
    let rest = assign_all env m more step.1 in elim step.0 [ some e ↦ step | none ↦ rest ]

-- A task as it is handed to the repository.
abbrev pub new_task : Env → ℕ → String → TaskInput → Task
new_task env n m i = record {
  id = env.new_task_id n;
  mission_id = m;
  type = i.type;
  description = i.description;
  status = task_pending;
  target = i.target;
  created_at = 0;
  updated_at = 0;
}

abbrev pub error_of {ℓ} : {A : Type ℓ} → Result A → Option Error
error_of (ok a) = none
error_of (err e) = some e

-- The third loop: the tasks are created, until one fails.
unfoldable pub create_all : Env → ℕ → String → List TaskInput → Db → Option Error × Db
unfolding create_task
create_all env n m [] db = (none, db)
create_all env n m (i ∷ is) db =
    let step = create_task env n (new_task env n m i) db in
    let rest = create_all env (suc n) m is step.1 in
    elim (error_of step.0) [ some e ↦ (some e, step.1) | none ↦ rest ]

-- The mission that `Create` hands to the repository.
abbrev pub draft : Env → CreateInput → Mission
draft env i = record {
  id = env.new_id;
  name = i.name;
  objective = i.objective;
  priority = i.priority;
  status = planned;
  incident_id = i.incident_id;
  created_at = 0;
  updated_at = 0;
  started_at = none;
  ended_at = none;
}

-- The end of `Create`: the mission is read back and announced.
abbrev pub read_back : String → Db → Result Mission → Result Mission × Db
read_back actor db (err e) = (err e, db)
read_back actor db (ok m) = (ok m, publish (mission_created m.id m.name m.status actor) db)

abbrev after_tasks : Env → CreateInput → Mission → Option Error × Db → Result Mission × Db
after_tasks env i m (some e, db) = (err e, db)
after_tasks env i m (none, db) = read_back i.actor db (get env m.id db)

abbrev after_assets : Env → CreateInput → Mission → Option Error × Db → Result Mission × Db
after_assets env i m (some e, db) = (err e, db)
after_assets env i m (none, db) = after_tasks env i m (create_all env 0 m.id i.tasks db)

abbrev pub after_insert : Env → CreateInput → Result Mission × Db → Result Mission × Db
after_insert env i (err e, db) = (err e, db)
after_insert env i (ok m, db) = after_assets env i m (assign_all env m.id i.assets db)

-- `Create`
unfoldable pub create : Env → CreateInput → Db → Result Mission × Db
create env raw_input db =
    let i = normalize raw_input in
    elim (validate i) [
      | some e ↦ (err e, db)
      | none ↦ elim (check_assets env i.assets) [
        | some e ↦ (err e, db)
        | none ↦ after_insert env i (create_row env (draft env i) db)
      ]
    ]

-- `publishUpdated`
abbrev pub publish_updated : String → Mission → Db → Db
publish_updated actor m db = publish (mission_updated m.id m.status actor) db

abbrev pub announce_moved : String → Result Mission × Db → Result Mission × Db
announce_moved actor (err e, db) = (err e, db)
announce_moved actor (ok m, db) = (ok m, publish_updated actor m db)

-- The second half of `UpdateStatus`, with the mission that was read.
abbrev pub move_from : Env → String → Status → String → Db → Result Mission → Result Mission × Db
move_from env id to actor db (err e) = (err e, db)
move_from env id to actor db (ok current) =
    if can_transition current.status to
    then announce_moved actor (update_row env id to current.status (env.others db))
    else (err (invalid_transition current.status to), db)

-- `UpdateStatus`
unfoldable pub update_status : Env → String → Status → String → Db → Result Mission × Db
update_status env id to actor db =
    if valid_status to then move_from env id to actor db (get env id db) else (
      err (
          validation_error
            (text "mission status must be one of PLANNED, ACTIVE, COMPLETED, ABORTED")),
      db,
    )

abbrev announce_assigned : String → Mission → Option Error × Db → Result Mission × Db
announce_assigned actor m (some e, db) = (err e, db)
announce_assigned actor m (none, db) = (ok m, publish_updated actor m db)

abbrev assign_to : Env → String → String → String → Db → Result Mission → Result Mission × Db
assign_to env id a actor db (err e) = (err e, db)
assign_to env id a actor db (ok current) = elim (unknown_asset a (env.asset_exists a)) [
  | some e ↦ (err e, db)
  | none ↦ announce_assigned actor current (assign_row env id a (env.others db))
]

-- `AssignAsset`
unfoldable pub assign_asset : Env → String → String → String → Db → Result Mission × Db
unfolding trim_space
assign_asset env raw_id raw_asset actor db =
    let id = trim_space raw_id in
    let a = trim_space raw_asset in
    if is_empty id
    then (err (validation_error (text "mission id is required")), db)
    else if is_empty a
    then (err (validation_error (text "asset id is required")), db)
    else assign_to env id a actor db (get env id db)

abbrev announce_task : String → Mission → Result Task × Db → Result Task × Db
announce_task actor m (err e, db) = (err e, db)
announce_task actor m (ok task, db) = (ok task, publish_updated actor m db)

abbrev add_to : Env → String → TaskInput → String → Db → Result Mission → Result Task × Db
add_to env id i actor db (err e) = (err e, db)
add_to env id i actor db (ok current) =
    announce_task actor current (create_task env 0 (new_task env 0 id i) (env.others db))

-- `AddTask`
unfoldable pub add_task : Env → String → TaskInput → String → Db → Result Task × Db
unfolding trim_space normalize_task
add_task env raw_id raw_input actor db =
    let i = normalize_task raw_input in
    let id = trim_space raw_id in
    elim (validate_task i) [
      | some e ↦ (err e, db)
      | none ↦
          if is_empty id
          then (err (validation_error (text "mission id is required")), db)
          else add_to env id i actor db (get env id db)
    ]

abbrev change_task :
    Env → String → String → TaskStatus → String → Db → Result Mission → Result Task × Db
change_task env m id to actor db (err e) = (err e, db)
change_task env m id to actor db (ok current) =
    announce_task actor current (update_task_row env m id to (env.others db))

-- `UpdateTaskStatus`
unfoldable pub update_task_status :
    Env → String → String → TaskStatus → String → Db → Result Task × Db
unfolding trim_space
update_task_status env raw_mission raw_id to actor db =
    let m = trim_space raw_mission in
    let id = trim_space raw_id in
    if valid_task_status to
    then if is_empty m
      then (err (validation_error (text "mission id is required")), db)
      else if is_empty id
      then (err (validation_error (text "task id is required")), db)
      else change_task env m id to actor db (get env m db)
    else (
      err (
          validation_error
            (text "task status must be one of PENDING, ACTIVE, COMPLETED, FAILED, CANCELLED")),
      db,
    )
