-- ===== src/Alerts/Service.antt =====
-- internal/alerts/service.go: the two rules that raise alerts, and the operators' calls.
use c4isr_systems.Prelude.{String, Option, none, some, List, [], ◌∷◌, ◌++◌}
use c4isr_systems.Platform.Apperr.{Error, Result, ok, err}
use c4isr_systems.Platform.Table.{Table, DbError}
use c4isr_systems.Alerts.{
  active, Severity, Float64, Subject, Alert, geofence_breach_type, area_overlap_type,
  normalize_severity, describe_track, breach_title, breach_message, area_subject, overlap_title,
  overlap_message,
}
use c4isr_systems.Alerts.Store.{
  Env, find_unresolved, Created, made, duplicate, failed, create, acknowledge, resolve,
  set_incident, newest, open_for_track, overlap_key,
}

-- events.GeofenceBreached
pub record GeofenceBreached : Type 0 where
  pub geofence_id : String
  pub geofence_name : String
  pub geofence_type : String
  pub severity : String
  pub track_id : String

-- events.AreaGeofenceOverlapped
pub record AreaGeofenceOverlapped : Type 0 where
  pub observation_id : String
  pub source_id : String
  pub area_kind : String
  pub geofence_id : String
  pub geofence_name : String
  pub geofence_type : String
  pub severity : String
  pub overlap_m2 : Float64
  pub area_m2 : Float64

pub data Event : Type 0 where
  alert_created :
      (alert_id type : String) (severity : Severity) (track_id asset_id geofence_id : String)
      → Event
  alert_acknowledged : (alert_id operator : String) → Event
  alert_resolved : (alert_id operator : String) → Event

pub record Db : Type 0 where
  pub rows : Table Alert
  pub outbox : List Event

abbrev pub publish : Event → Db → Db
publish e db = record db { outbox = db.outbox ++ e ∷ [] }

-- The row of the database sets what these leave open.
abbrev pub raised : Env → String → Alert
raised env type = record {
  id = env.new_id;
  type = type;
  severity = Severity.medium;
  state = active;
  title = overlap_title (area_subject "") "";
  message = overlap_message "" "";
  source_reference = record {
    rule = type;
    geofence_id = "";
    geofence_name = "";
    geofence_type = "";
    track_id = "";
    observation_id = "";
    source_id = "";
    area_kind = "";
    overlap_m2 = 0;
    area_m2 = 0;
    subject_label = "";
    subject_confirmed = none;
    scope = env.scope;
  };
  track_id = "";
  asset_id = "";
  geofence_id = "";
  incident_id = "";
  created_at = 0;
  updated_at = 0;
  acknowledged_at = none;
  acknowledged_by = "";
  resolved_at = none;
  resolved_by = "";
}

-- The alert that `HandleGeofenceBreached` creates.
abbrev pub breach_alert : Env → GeofenceBreached → Alert
breach_alert env ev =
    let subject : Subject = describe_track ev.track_id env.classifier in
    record (raised env geofence_breach_type) {
      severity = normalize_severity ev.severity;
      title = breach_title subject ev.geofence_name;
      message = breach_message subject ev.geofence_type ev.geofence_name;
      source_reference = record ((raised env geofence_breach_type).source_reference) {
        geofence_id = ev.geofence_id;
        geofence_name = ev.geofence_name;
        geofence_type = ev.geofence_type;
        track_id = ev.track_id;
        subject_label = subject.label;
        subject_confirmed = some subject.confirmed;
      };
      track_id = ev.track_id;
      geofence_id = ev.geofence_id;
    }

-- The alert that `HandleAreaGeofenceOverlapped` creates: it names no track.
abbrev pub overlap_alert : Env → AreaGeofenceOverlapped → Alert
overlap_alert env ev =
    let subject : Subject = area_subject ev.area_kind in
    record (raised env area_overlap_type) {
      severity = normalize_severity ev.severity;
      title = overlap_title subject ev.geofence_name;
      message = overlap_message ev.area_kind ev.geofence_name;
      source_reference = record ((raised env area_overlap_type).source_reference) {
        geofence_id = ev.geofence_id;
        geofence_name = ev.geofence_name;
        geofence_type = ev.geofence_type;
        observation_id = ev.observation_id;
        source_id = ev.source_id;
        area_kind = ev.area_kind;
        overlap_m2 = ev.overlap_m2;
        area_m2 = ev.area_m2;
        subject_label = subject.label;
      };
      geofence_id = ev.geofence_id;
    }

-- A duplicate and a failure are not announced.
abbrev pub announce : Db → Created × Table Alert → Db
announce db (made a, t) =
    publish (alert_created a.id a.type a.severity a.track_id a.asset_id a.geofence_id)
      (record db { rows = t })
announce db (duplicate index, t) = record db { rows = t }
announce db (failed e, t) = record db { rows = t }

-- The common part of the handlers: nothing happens if the look-up fails or finds an alert.
abbrev pub raise_unless : Env → Alert → Option DbError → Option Alert → Db → Db
raise_unless env a (some e) existing db = db
raise_unless env a none (some old) db = db
raise_unless env a none none db = announce db (create env a (env.others db.rows))

-- `HandleGeofenceBreached`
unfoldable pub handle_geofence_breached : Env → GeofenceBreached → Db → Db
handle_geofence_breached env ev db =
    raise_unless env (breach_alert env ev) (env.fault find_unresolved)
      (newest (open_for_track ev.geofence_id ev.track_id) db.rows) db

-- `HandleAreaGeofenceOverlapped`
unfoldable pub handle_area_geofence_overlapped : Env → AreaGeofenceOverlapped → Db → Db
handle_area_geofence_overlapped env ev db =
    raise_unless env (overlap_alert env ev) (env.fault find_unresolved)
      (newest (overlap_key ev.geofence_id ev.observation_id) db.rows) db

abbrev pub reply : (String → Event) → Db → Result Alert × Table Alert → Result Alert × Db
reply event db (err e, t) = (err e, record db { rows = t })
reply event db (ok a, t) = (ok a, publish (event a.id) (record db { rows = t }))

-- `Acknowledge`
unfoldable pub acknowledge_alert : Env → String → String → Db → Result Alert × Db
acknowledge_alert env id operator db =
    reply (λ i. alert_acknowledged i operator) db (acknowledge env id operator db.rows)

-- `Resolve`
unfoldable pub resolve_alert : Env → String → String → Db → Result Alert × Db
resolve_alert env id operator db =
    reply (λ i. alert_resolved i operator) db (resolve env id operator db.rows)

-- `SetIncident`
unfoldable pub link_incident : Env → String → String → Db → Option Error × Db
link_incident env id incident db =
    let (e, t) = set_incident env id incident db.rows in (e, record db { rows = t })
