-- ===== src/Incidents/Service.antt =====
-- internal/incidents/service.go: opening, moving, editing incidents and attaching evidence.
use c4isr_systems.Prelude.{
  String, Bool, false, ◌||◌, Option, none, some, List, [], ◌∷◌, ◌++◌, trim_space, is_empty,
  if◌then◌else◌,
}
use c4isr_systems.Platform.Apperr.{Error, Result, ok, err, validation_error, text}
use c4isr_systems.Incidents.{
  Status, opened, Incident, Kind, alert, track, asset, observation, assessment, RelationIds,
  CreateInput, UpdateInput, normalize_create, validate_create, normalize_update, validate_update,
  can_move, invalid_move, valid_status,
}
use c4isr_systems.Incidents.Store.{
  Env, Tables, create_with_relations, get, move_row, edit_row, attach_row,
}

-- events.IncidentCreated and events.IncidentUpdated
pub data Event : Type 0 where
  incident_created :
      (incident_id title priority : String) (status : Status) (actor : String) → Event
  incident_updated : (incident_id : String) (status : Status) (priority actor : String) → Event

pub record Db : Type 0 where
  pub tables : Tables
  pub outbox : List Event

abbrev pub publish : Event → Db → Db
publish e db = record db { outbox = db.outbox ++ e ∷ [] }

abbrev id_required : Kind → Error
id_required alert = validation_error (text "alert id is required")
id_required track = validation_error (text "track id is required")
id_required asset = validation_error (text "asset id is required")
id_required observation = validation_error (text "observation id is required")
id_required assessment = validation_error (text "assessment id is required")

-- An id that is blank.
unfoldable pub any_blank : List String → Bool
unfolding trim_space
any_blank [] = false
any_blank (id ∷ ids) = is_empty (trim_space id) || any_blank ids

-- The check of the relations of `Create`.
unfoldable pub check_relations : RelationIds → Option Error
check_relations r =
    if any_blank r.alert_ids
    then some (id_required alert)
    else if any_blank r.track_ids
    then some (id_required track)
    else if any_blank r.asset_ids
    then some (id_required asset)
    else if any_blank r.observation_ids
    then some (id_required observation)
    else if any_blank r.assessment_ids
    then some (id_required assessment)
    else none

-- The incident that `Create` hands to the repository.
abbrev pub draft : Env → CreateInput → Incident
draft env i = record {
  id = env.new_id;
  title = i.title;
  description = i.description;
  priority = i.priority;
  status = opened;
  assigned_operator = i.actor;
  created_at = 0;
  updated_at = 0;
  resolved_at = none;
  closed_at = none;
}

abbrev pub announce_created : String → Db → Result Incident × Tables → Result Incident × Db
announce_created actor db (err e, t) = (err e, record db { tables = t })
announce_created actor db (ok i, t) = (
  ok i,
  publish (incident_created i.id i.title i.priority i.status actor) (record db { tables = t }),
)

-- `Create`
unfoldable pub open_incident : Env → CreateInput → Db → Result Incident × Db
open_incident env raw_input db =
    let i = normalize_create raw_input in
    elim (validate_create i) [
      | some e ↦ (err e, db)
      | none ↦ elim (check_relations i.relations) [
        | some e ↦ (err e, db)
        | none ↦
            announce_created i.actor db
              (create_with_relations env (draft env i) i.relations db.tables)
      ]
    ]

-- `publishUpdated`
abbrev pub announce_updated : String → Db → Result Incident × Tables → Result Incident × Db
announce_updated actor db (err e, t) = (err e, record db { tables = t })
announce_updated actor db (ok i, t) =
    (ok i, publish (incident_updated i.id i.status i.priority actor) (record db { tables = t }))

abbrev pub move_from : Env → String → Status → String → Db → Result Incident → Result Incident × Db
move_from env id to actor db (err e) = (err e, db)
move_from env id to actor db (ok current) =
    if can_move current.status to
    then announce_updated actor db (move_row env id to current.status (env.others db.tables))
    else (err (invalid_move current.status to), db)

-- `UpdateStatus`
unfoldable pub change_status : Env → String → Status → String → Db → Result Incident × Db
change_status env id to actor db =
    if valid_status to then move_from env id to actor db (get env id db.tables) else (
      err (
          validation_error (
            text
              "incident status must be one of OPEN, ACKNOWLEDGED, INVESTIGATING, RESPONDING, RESOLVED, CLOSED")),
      db,
    )

abbrev or_kept : String → String → String
or_kept new old = if is_empty new then old else new

-- The incident that `Update` writes: the one that was read, with the fields of the input.
abbrev pub merged : UpdateInput → Incident → Incident
merged i current = record current {
  title = or_kept i.title current.title;
  description = or_kept i.description current.description;
  priority = or_kept i.priority current.priority;
  assigned_operator = or_kept i.assigned_operator current.assigned_operator;
}

abbrev pub edit_from : Env → UpdateInput → String → Db → Result Incident → Result Incident × Db
edit_from env i actor db (err e) = (err e, db)
edit_from env i actor db (ok current) =
    announce_updated actor db (edit_row env (merged i current) (env.others db.tables))

-- `Update`
unfoldable pub edit : Env → String → UpdateInput → String → Db → Result Incident × Db
edit env id raw_input actor db =
    let i = normalize_update raw_input in
    elim (validate_update i) [
      | some e ↦ (err e, db)
      | none ↦ edit_from env i actor db (get env id db.tables)
    ]

abbrev pub announce_attached : Incident → String → Db → Option Error × Tables → Result Incident × Db
announce_attached current actor db (some e, t) = (err e, record db { tables = t })
announce_attached current actor db (none, t) = announce_updated actor db (ok current, t)

abbrev pub attach_to : Env → Kind → String → String → Db → Result Incident → Result Incident × Db
attach_to env kind target actor db (err e) = (err e, db)
attach_to env kind target actor db (ok current) =
    announce_attached current actor db
      (attach_row env kind current.id target (env.others db.tables))

-- `attach`, for each kind of evidence
unfoldable pub attach : Env → Kind → String → String → String → Db → Result Incident × Db
unfolding trim_space
attach env kind incident target actor db =
    if is_empty (trim_space incident)
    then (err (validation_error (text "incident id is required")), db)
    else if is_empty (trim_space target)
    then (err (id_required kind), db)
    else attach_to env kind (trim_space target) actor db (get env (trim_space incident) db.tables)
