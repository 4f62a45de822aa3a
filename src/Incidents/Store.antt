-- ===== src/Incidents/Store.antt =====
-- internal/incidents/postgres_repository.go over the queries of db/queries/incidents.sql.
use c4isr_systems.Prelude.{
  ℕ, String, Bool, true, false, ◌&&◌, ◌||◌, Option, none, some, List, [], ◌∷◌, ◌++◌, str_eq,
  trim_space, if◌then◌else◌,
}
use c4isr_systems.Platform.Apperr.{
  Error, Result, ok, err, bad_request_error, not_found_error, conflict_error, plain, wrapped, text,
  labelled,
}
use c4isr_systems.Platform.Table.{Table, find, put, update_where, DbError, foreign_key, raw}
use c4isr_systems.Incidents.{
  Status, opened, acknowledged, investigating, responding, resolved, closed, other, Incident, Kind,
  alert, track, asset, observation, assessment, RelationIds,
}

-- A row of one of the five relation tables.
pub record Link : Type 0 where
  pub kind : Kind
  pub incident_id : String
  pub target_id : String

-- The tables that the repository writes: of the alerts, the column incident_id.
pub record Tables : Type 0 where
  pub incidents : Table Incident
  pub links : List Link
  pub alert_incident : Table String

pub data Query : Type 0 where
  begin_transaction create_incident commit get_incident update_status recheck_incident
        update_incident :
      Query

-- What one call finds outside. The answers of the inserts into a relation table depend on the record
-- that is referred to, and those of SetAlertIncident on the alert.
pub record Env : Type 0 where
  pub now : ℕ
  pub new_id : String
  pub fault : Query → Option DbError
  pub link_fault : Kind → String → Option DbError
  pub point_fault : String → Option DbError
  pub others : Tables → Tables

unfoldable pub same_kind : Kind → Kind → Bool
same_kind alert alert = true
same_kind track track = true
same_kind asset asset = true
same_kind observation observation = true
same_kind assessment assessment = true
same_kind _ _ = false

unfoldable pub has_link : Kind → String → String → List Link → Bool
has_link kind incident target [] = false
has_link kind incident target (l ∷ ls) =
    (same_kind l.kind kind && (str_eq l.incident_id incident && str_eq l.target_id target))
    || has_link kind incident target ls

-- INSERT ... ON CONFLICT DO NOTHING
unfoldable pub add_link : Kind → String → String → Tables → Tables
add_link kind incident target t = if has_link kind incident target t.links then t else record t {
  links = t.links ++ record { kind = kind; incident_id = incident; target_id = target } ∷ [];
}

-- SetAlertIncident: a missing alert is no error.
unfoldable pub point_alert : String → String → Tables → Tables
point_alert target incident t =
    elim (update_where target (λ i. true) (λ i. incident) t.alert_incident) [
      | none ↦ t
      | some (i, alerts) ↦ record t { alert_incident = alerts }
    ]

abbrev unknown : Kind → String
unknown alert = "unknown alert: "
unknown track = "unknown track: "
unknown asset = "unknown asset: "
unknown observation = "unknown observation: "
unknown assessment = "unknown assessment: "

-- `relationError`
unfoldable pub relation_error : DbError → Kind → String → Error
relation_error (foreign_key name) kind id = bad_request_error (labelled (unknown kind) id)
relation_error e kind id = raw e

-- The alerts' part of the loop in CreateWithRelations; a query that fails ends it.
unfoldable pub relate_alerts : Env → String → List String → Tables → Option Error × Tables
unfolding trim_space
relate_alerts env incident [] t = (none, t)
relate_alerts env incident (id ∷ ids) t =
    let linked = add_link alert incident (trim_space id) t in
    let rest = relate_alerts env incident ids (point_alert (trim_space id) incident linked) in
    elim (env.link_fault alert (trim_space id)) [
      | some e ↦ (some (relation_error e alert id), t)
      | none ↦ elim (env.point_fault (trim_space id)) [
        | some e ↦ (some (relation_error e alert id), linked)
        | none ↦ rest
      ]
    ]

-- Its part for another kind.
unfoldable pub relate : Env → Kind → String → List String → Tables → Option Error × Tables
unfolding trim_space
relate env kind incident [] t = (none, t)
relate env kind incident (id ∷ ids) t =
    let rest = relate env kind incident ids (add_link kind incident (trim_space id) t) in
    elim (env.link_fault kind (trim_space id)) [
      | some e ↦ (some (relation_error e kind id), t)
      | none ↦ rest
    ]

-- One part of the loop after another.
abbrev pub and_then :
    Option Error × Tables → (Tables → Option Error × Tables) → Option Error × Tables
and_then (some e, t) next = (some e, t)
and_then (none, t) next = next t

unfoldable pub relate_all : Env → String → RelationIds → Tables → Option Error × Tables
relate_all env incident r t =
    and_then
      (and_then
        (and_then
          (and_then (relate_alerts env incident r.alert_ids t)
            (relate env track incident r.track_ids))
          (relate env asset incident r.asset_ids))
        (relate env observation incident r.observation_ids))
      (relate env assessment incident r.assessment_ids)

-- The end of `WithTx`: an error rolls everything back to the tables before.
abbrev pub finish_tx : Env → Incident → Tables → Option Error × Tables → Result Incident × Tables
finish_tx env row before (some e, t) = (err e, before)
finish_tx env row before (none, t) = elim (env.fault commit) [
  | some e ↦ (err (wrapped "commit transaction: " (raw e)), before)
  | none ↦ (ok row, t)
]

-- CreateIncident
unfoldable pub open_row : ℕ → Incident → Incident
open_row now i = record i {
  created_at = now;
  updated_at = now;
  resolved_at = none;
  closed_at = none;
}

-- `Create`, which no service calls.
unfoldable pub create_row : Env → Incident → Tables → Result Incident × Tables
create_row env i t = elim (env.fault create_incident) [
  | some e ↦ (err (raw e), t)
  | none ↦ elim (find i.id t.incidents) [
    | some old ↦ (err (plain "incidents_pkey"), t)
    | none ↦ (
      ok (open_row env.now i),
      record t { incidents = put i.id (open_row env.now i) t.incidents },
    )
  ]
]

abbrev pub insert_incident :
    Env → Incident → RelationIds → Tables → Option Incident → Result Incident × Tables
insert_incident env i r t (some old) = (err (plain "incidents_pkey"), t)
insert_incident env i r t none =
    let row = open_row env.now i in
    finish_tx env row t (relate_all env i.id r (record t { incidents = put i.id row t.incidents }))

-- `CreateWithRelations`
unfoldable pub create_with_relations :
    Env → Incident → RelationIds → Tables → Result Incident × Tables
create_with_relations env i r t = elim (env.fault begin_transaction) [
  | some e ↦ (err (wrapped "begin transaction: " (raw e)), t)
  | none ↦ elim (env.fault create_incident) [
    | some e ↦ (err (raw e), t)
    | none ↦ insert_incident env i r t (find i.id t.incidents)
  ]
]

-- GetIncident, at one of the places that run it.
abbrev pub fetch : Option DbError → String → Tables → Result Incident
fetch (some e) id t = err (raw e)
fetch none id t = elim (find id t.incidents) [
  | none ↦ err (not_found_error "incident" id)
  | some i ↦ ok i
]

-- `Get`
unfoldable pub get : Env → String → Tables → Result Incident
get env id t = fetch (env.fault get_incident) id t

-- `status = @expected_status`
unfoldable pub same_status : Status → Status → Bool
same_status opened opened = true
same_status acknowledged acknowledged = true
same_status investigating investigating = true
same_status responding responding = true
same_status resolved resolved = true
same_status closed closed = true
same_status (other s) (other t) = str_eq s t
same_status _ _ = false

-- The SET clause of UpdateIncidentStatus.
unfoldable pub moved : ℕ → Status → Incident → Incident
unfolding same_status
moved now to i = record i {
  status = to;
  updated_at = now;
  resolved_at = if same_status to resolved then some now else i.resolved_at;
  closed_at = if same_status to closed then some now else i.closed_at;
}

abbrev explain : Result Incident → Result Incident
explain (err e) = err e
explain (ok i) = err (conflict_error (text "incident status changed concurrently"))

abbrev pub status_written :
    Env → String → Tables → Option (Incident × Table Incident) → Result Incident × Tables
status_written env id t none = (explain (fetch (env.fault recheck_incident) id t), t)
status_written env id t (some (i, rows)) = (ok i, record t { incidents = rows })

-- `UpdateStatus`
unfoldable pub move_row : Env → String → Status → Status → Tables → Result Incident × Tables
move_row env id to expected t = elim (env.fault update_status) [
  | some e ↦ (err (raw e), t)
  | none ↦
      status_written env id t
        (update_where id (λ i. same_status i.status expected) (moved env.now to) t.incidents)
]

-- The SET clause of UpdateIncident.
unfoldable pub edited : ℕ → Incident → Incident → Incident
edited now new i = record i {
  title = new.title;
  description = new.description;
  priority = new.priority;
  assigned_operator = new.assigned_operator;
  updated_at = now;
}

abbrev pub edit_written :
    Incident → Tables → Option (Incident × Table Incident) → Result Incident × Tables
edit_written new t none = (err (not_found_error "incident" new.id), t)
edit_written new t (some (i, rows)) = (ok i, record t { incidents = rows })

-- `Update`
unfoldable pub edit_row : Env → Incident → Tables → Result Incident × Tables
edit_row env new t = elim (env.fault update_incident) [
  | some e ↦ (err (raw e), t)
  | none ↦ edit_written new t (update_where new.id (λ i. true) (edited env.now new) t.incidents)
]

abbrev pub point_attached : Env → String → String → Tables → Option Error × Tables
point_attached env incident target t = elim (env.point_fault target) [
  | some e ↦ (some (raw e), t)
  | none ↦ (none, point_alert target incident t)
]

-- `AttachAlert`, `AttachTrack`, `AttachAsset`, `AttachObservation` and `AttachAssessment`
unfoldable pub attach_row : Env → Kind → String → String → Tables → Option Error × Tables
attach_row env kind incident target t = elim (env.link_fault kind target) [
  | some e ↦ (some (relation_error e kind target), t)
  | none ↦
      if same_kind kind alert
      then point_attached env incident target (add_link kind incident target t)
      else (none, add_link kind incident target t)
]
