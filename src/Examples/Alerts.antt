-- ===== src/Examples/Alerts.antt =====
-- The theorems on internal/alerts at concrete inputs.
use c4isr_systems.Prelude.{String, ◌≡◌, refl, Option, none, some, List, [], ◌∷◌, arith}
use c4isr_systems.Platform.Apperr.{Error, Result, ok, err}
use c4isr_systems.Platform.Table.{Table, find, put, update_where, DbError}
use c4isr_systems.Alerts.{Alert, Classification}
use c4isr_systems.Alerts.Store.{Env, Query, resolved_row, inserted, resolve}
use c4isr_systems.Alerts.Service.{
  Db, GeofenceBreached, AreaGeofenceOverlapped, handle_geofence_breached,
  handle_area_geofence_overlapped, acknowledge_alert, resolve_alert, breach_alert, alert_resolved,
}
use c4isr_systems.Alerts.Calls.{
  Call, breached, overlapped, acknowledging, resolving, linking, apply_all,
}
use c4isr_systems.Alerts.Dedup.{IsDeduplicated, apply_all-IsDeduplicated}
use c4isr_systems.Alerts.Lifecycle.{Advances, Advances-refl, apply_all-Advances}
use c4isr_systems.Alerts.Delivery.{breach_redelivered, overlap_redelivered}
use c4isr_systems.Alerts.Final.{resolved_final}
use c4isr_systems.Alerts.Count.{count}

abbrev no_fault : Query → Option DbError
no_fault q = none

abbrev vessel : String → Result (Option Classification)
vessel track = ok (some (record { label = "Vessel"; confidence = none }))

abbrev calm : Env
calm = record {
  now = 70;
  new_id = "alert-1";
  scope = none;
  classifier = some vessel;
  fault = no_fault;
  others = λ t. t;
}

abbrev later : Env
later = record calm { now = 90; new_id = "alert-2" }

abbrev second : Env
second = record calm { new_id = "alert-2" }

abbrev breach : GeofenceBreached
breach = record {
  geofence_id = "g-1";
  geofence_name = "Harbour";
  geofence_type = "restricted";
  severity = "high";
  track_id = "t-1";
}

abbrev overlap : AreaGeofenceOverlapped
overlap = record {
  observation_id = "o-1";
  source_id = "s-1";
  area_kind = "hazard";
  geofence_id = "g-1";
  geofence_name = "Harbour";
  geofence_type = "restricted";
  severity = "high";
  overlap_m2 = 0;
  area_m2 = 0;
}

abbrev empty : Db
empty = record { rows = []; outbox = [] }

abbrev raised_row : Alert
raised_row = inserted 70 (breach_alert calm breach)

abbrev holding : Db
holding = record { rows = ("alert-1", raised_row) ∷ []; outbox = [] }

abbrev calls : List (Env × Call)
calls =
    (calm, breached breach)
    ∷ (later, breached breach)
    ∷ (later, overlapped overlap)
    ∷ (later, acknowledging "alert-1" "op-1")
    ∷ (later, linking "alert-1" "i-1")
    ∷ (later, resolving "alert-1" "op-1")
    ∷ []

empty-IsDeduplicated : IsDeduplicated []
unfolding count
empty-IsDeduplicated = record {
  per_track = λ g t. omega arith;
  per_observation = λ g o. omega arith;
}

apply_all-IsDeduplicated_example : IsDeduplicated (apply_all calls empty).rows
apply_all-IsDeduplicated_example =
    apply_all-IsDeduplicated calls empty
      ((λ t h. h), ((λ t h. h), ((λ t h. h), ((λ t h. h), ((λ t h. h), ((λ t h. h), tt))))))
      empty-IsDeduplicated

untouched : (t : Table Alert) → Advances t t
untouched t = Advances-refl t

apply_all-Advances_example : Advances holding.rows (apply_all calls holding).rows
apply_all-Advances_example =
    apply_all-Advances calls holding
      (untouched, (untouched, (untouched, (untouched, (untouched, (untouched, tt))))))

breach_redelivered_example :
    handle_geofence_breached later breach (handle_geofence_breached calm breach empty)
    ≡ handle_geofence_breached calm breach empty
unfolding find
breach_redelivered_example = breach_redelivered calm later breach empty refl refl refl refl refl

overlap_redelivered_example :
    handle_area_geofence_overlapped later overlap
      (handle_area_geofence_overlapped second overlap holding)
    ≡ handle_area_geofence_overlapped second overlap holding
unfolding find
overlap_redelivered_example = overlap_redelivered second later overlap holding refl refl refl refl

abbrev resolved_alert : Alert
resolved_alert = resolved_row 70 "op-1" raised_row

abbrev resolved_db : Db
resolved_db = record {
  rows = ("alert-1", resolved_alert) ∷ [];
  outbox = alert_resolved "alert-1" "op-1" ∷ [];
}

ran : resolve_alert calm "alert-1" "op-1" holding ≡ (ok resolved_alert, resolved_db)
unfolding resolve_alert resolve update_where find put resolved_row inserted
ran = refl

resolved_final_example :
    (resolved_alert.resolved_by ≡ "op-1")
    × ((e : Error) × (acknowledge_alert later "alert-1" "op-2" resolved_db ≡ (err e, resolved_db)))
    × ((e : Error) × (resolve_alert later "alert-1" "op-2" resolved_db ≡ (err e, resolved_db)))
unfolding resolved_row
resolved_final_example =
    resolved_final calm later "alert-1" "op-1" "op-2" holding {a = resolved_alert}
      {after = resolved_db} ran
