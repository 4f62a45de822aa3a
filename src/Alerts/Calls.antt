-- ===== src/Alerts/Calls.antt =====
-- The calls of internal/alerts/service.go, in any order.
use c4isr_systems.Prelude.{String, List, [], ◌∷◌}
use c4isr_systems.Alerts.Store.{Env}
use c4isr_systems.Alerts.Service.{
  GeofenceBreached, AreaGeofenceOverlapped, Db, handle_geofence_breached,
  handle_area_geofence_overlapped, acknowledge_alert, resolve_alert, link_incident,
}

pub data Call : Type 0 where
  breached : GeofenceBreached → Call
  overlapped : AreaGeofenceOverlapped → Call
  acknowledging : (id operator : String) → Call
  resolving : (id operator : String) → Call
  linking : (id incident : String) → Call

unfoldable pub apply : Env × Call → Db → Db
apply (env, breached ev) db = handle_geofence_breached env ev db
apply (env, overlapped ev) db = handle_area_geofence_overlapped env ev db
apply (env, acknowledging id operator) db = (acknowledge_alert env id operator db).1
apply (env, resolving id operator) db = (resolve_alert env id operator db).1
apply (env, linking id incident) db = (link_incident env id incident db).1

unfoldable pub apply_all : List (Env × Call) → Db → Db
apply_all [] db = db
apply_all (c ∷ cs) db = apply_all cs (apply c db)
