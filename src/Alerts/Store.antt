-- ===== src/Alerts/Store.antt =====
-- internal/alerts/postgres_repository.go over db/queries/alerts.sql and the unique indexes of
-- db/migrations/00017 and 00018.
use c4isr_systems.Prelude.{
  ℕ, String, Bool, true, false, ◌&&◌, ◌||◌, not, Option, none, some, [], ◌∷◌, str_eq, is_empty, leb,
  if◌then◌else◌,
}
use c4isr_systems.Platform.Apperr.{Error, Result, ok, err, conflict_error, text, plain}
use c4isr_systems.Platform.Table.{Table, find, put, update_where, DbError, raw}
use c4isr_systems.Alerts.{
  State, active, acknowledged, resolved, Alert, Classification, Scope, geofence_breach_type,
  area_overlap_type,
}

pub data Query : Type 0 where
  create_alert acknowledge_alert resolve_alert set_alert_incident find_unresolved : Query

-- What one call finds outside. `others` is what other writers do between a handler's look-up and its
-- insert.
pub record Env : Type 0 where
  pub now : ℕ
  pub new_id : String
  pub scope : Option Scope
  pub classifier : Option (String → Result (Option Classification))
  pub fault : Query → Option DbError
  pub others : Table Alert → Table Alert

abbrev pub unresolved : State → Bool
unresolved resolved = false
unresolved _ = true

-- `column = @parameter`, where an empty text is NULL and equals nothing.
abbrev pub column_eq : String → String → Bool
column_eq column value = not (is_empty value) && str_eq column value

-- The rows that alerts_active_geofence_track_key holds for a pair.
unfoldable pub breach_key : String → String → Alert → Bool
breach_key geofence track a =
    str_eq a.type geofence_breach_type
    && (unresolved a.state && (column_eq a.geofence_id geofence && column_eq a.track_id track))

-- The rows that alerts_active_area_overlap_key holds for a pair. The source reference of an alert of
-- this type always names an observation, if only by the empty text, which is no NULL.
unfoldable pub overlap_key : String → String → Alert → Bool
overlap_key geofence observation a =
    str_eq a.type area_overlap_type
    && (unresolved a.state
        && (column_eq a.geofence_id geofence
            && str_eq a.source_reference.observation_id observation))

-- Whether some row passes a test.
unfoldable pub any_row : (Alert → Bool) → Table Alert → Bool
any_row p [] = false
any_row p ((k, a) ∷ t) = p a || any_row p t

-- ORDER BY created_at DESC LIMIT 1
unfoldable pub newest : (Alert → Bool) → Table Alert → Option Alert
newest p [] = none
newest p ((k, a) ∷ t) = elim (newest p t) [
  | none ↦ if p a then some a else none
  | some b ↦ if p a && leb b.created_at a.created_at then some a else some b
]

-- The WHERE clause of FindUnresolvedAlertForGeofenceTrack.
unfoldable pub open_for_track : String → String → Alert → Bool
open_for_track geofence track a =
    column_eq a.geofence_id geofence && (column_eq a.track_id track && unresolved a.state)

-- The two unique indexes, for a row to be inserted.
unfoldable pub index_conflict : Alert → Table Alert → Option String
index_conflict a t =
    if str_eq a.type geofence_breach_type && any_row (breach_key a.geofence_id a.track_id) t
    then some "alerts_active_geofence_track_key"
    else if str_eq a.type area_overlap_type
        && any_row (overlap_key a.geofence_id a.source_reference.observation_id) t
    then some "alerts_active_area_overlap_key"
    else none

-- CreateAlert: the row is ACTIVE.
unfoldable pub inserted : ℕ → Alert → Alert
inserted now a = record a {
  state = active;
  created_at = now;
  updated_at = now;
  acknowledged_at = none;
  acknowledged_by = "";
  resolved_at = none;
  resolved_by = "";
}

-- The results of `Create`; the two duplicates are ErrDuplicateGeofenceBreach and
-- ErrDuplicateAreaOverlap.
pub data Created : Type 0 where
  made : Alert → Created
  duplicate : String → Created
  failed : Error → Created

abbrev pub insert_unless :
    Env → Alert → Table Alert → Option Alert → Option String → Created × Table Alert
insert_unless env a t (some old) index = (failed (plain "alerts_pkey"), t)
insert_unless env a t none (some index) = (duplicate index, t)
insert_unless env a t none none = (made (inserted env.now a), put a.id (inserted env.now a) t)

-- `Create`
unfoldable pub create : Env → Alert → Table Alert → Created × Table Alert
create env a t = elim (env.fault create_alert) [
  | some e ↦ (failed (raw e), t)
  | none ↦ insert_unless env a t (find a.id t) (index_conflict a t)
]

abbrev pub answered :
    String → Table Alert → Option (Alert × Table Alert) → Result Alert × Table Alert
answered refusal t none = (err (conflict_error (text refusal)), t)
answered refusal t (some (a, t')) = (ok a, t')

abbrev pub is_active : State → Bool
is_active active = true
is_active _ = false

unfoldable pub acknowledged_row : ℕ → String → Alert → Alert
acknowledged_row now operator a = record a {
  state = acknowledged;
  acknowledged_at = some now;
  acknowledged_by = operator;
  updated_at = now;
}

-- `Acknowledge`
unfoldable pub acknowledge : Env → String → String → Table Alert → Result Alert × Table Alert
acknowledge env id operator t = elim (env.fault acknowledge_alert) [
  | some e ↦ (err (raw e), t)
  | none ↦
      answered "alert is not active" t
        (update_where id (λ a. is_active a.state) (acknowledged_row env.now operator) t)
]

unfoldable pub resolved_row : ℕ → String → Alert → Alert
resolved_row now operator a = record a {
  state = resolved;
  resolved_at = some now;
  resolved_by = operator;
  updated_at = now;
}

-- `Resolve`
unfoldable pub resolve : Env → String → String → Table Alert → Result Alert × Table Alert
resolve env id operator t = elim (env.fault resolve_alert) [
  | some e ↦ (err (raw e), t)
  | none ↦
      answered "alert is already resolved" t
        (update_where id (λ a. unresolved a.state) (resolved_row env.now operator) t)
]

unfoldable pub linked_row : ℕ → String → Alert → Alert
linked_row now incident a = record a { incident_id = incident; updated_at = now }

-- `SetIncident`: a missing id is no error.
unfoldable pub set_incident : Env → String → String → Table Alert → Option Error × Table Alert
set_incident env id incident t = elim (env.fault set_alert_incident) [
  | some e ↦ (some (raw e), t)
  | none ↦ elim (update_where id (λ a. true) (linked_row env.now incident) t) [
    | none ↦ (none, t)
    | some (a, t') ↦ (none, t')
  ]
]
