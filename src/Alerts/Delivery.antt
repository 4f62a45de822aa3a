-- ===== src/Alerts/Delivery.antt =====
-- The event handlers of internal/alerts/service.go under repeated delivery.
use c4isr_systems.Prelude.{
  String, ◌≡◌, refl, Bool, true, false, Option, none, some, arith, eq_refl, is_empty, Option-cases,
  inl, inr,
}
use c4isr_systems.Platform.Table.{Table, find, put, DbError}
use c4isr_systems.Alerts.{Alert}
use c4isr_systems.Alerts.Store.{
  Env, create_alert, find_unresolved, any_row, newest, open_for_track, breach_key, overlap_key,
  index_conflict, inserted, create,
}
use c4isr_systems.Alerts.Service.{
  Db, GeofenceBreached, AreaGeofenceOverlapped, raise_unless, breach_alert, overlap_alert,
  handle_geofence_breached, handle_area_geofence_overlapped,
}
use c4isr_systems.Alerts.Count.{newest-none, any_row_weaker, any_row-put}

-- The look-up of a handler finds an alert after it, if the index held one or the new row is one.
found_after :
    (q : Alert → Bool) (env : Env) (a : Alert) (existing : Option Alert) (db : Db)
    → newest q db.rows ≡ existing
    → env.fault create_alert ≡ none
    → find a.id (env.others db.rows) ≡ none
    → q (inserted env.now a) ≡ true
    → ((name : String)
        → index_conflict a (env.others db.rows) ≡ some name
        → any_row q (env.others db.rows) ≡ true)
    → (b : Alert) × (newest q (raise_unless env a none existing db).rows ≡ some b)
unfolding create
found_after q env a (some b) db look runs fresh fits clash = (b, look)
found_after q env a none db look runs fresh fits clash =
    go (index_conflict a (env.others db.rows)) refl
  where
    somewhere : (t : Table Alert) → any_row q t ≡ true → (b : Alert) × (newest q t ≡ some b)
    somewhere t h = elim (Option-cases (newest q t)) [
      | inl e ↦ absurd (ground (arith, newest-none q t))
      | inr (b, e) ↦ (b, e)
    ]

    go :
        (index : Option String)
        → index_conflict a (env.others db.rows) ≡ index
        → (b : Alert) × (newest q (raise_unless env a none none db).rows ≡ some b)
    go (some name) e = rw (runs, fresh, e, create) (somewhere (env.others db.rows) (clash name e))
    go none e =
        rw (runs, fresh, e, create)
          (somewhere (put a.id (inserted env.now a) (env.others db.rows))
            (any_row-put q a.id (inserted env.now a) (env.others db.rows) fits))

-- A handler that has found its alert once, or has made it, does nothing the next time.
raise_again :
    (again : Env) (a : Alert) (fault : Option DbError) (q : Alert → Bool) (db : Db) {b : Alert}
    → newest q db.rows ≡ some b
    → raise_unless again a fault (newest q db.rows) db ≡ db
raise_again again a none q db e = rw e refl
raise_again again a (some f) q db e = refl

breach_fits :
    (env : Env) (ev : GeofenceBreached)
    → is_empty ev.geofence_id ≡ false
    → is_empty ev.track_id ≡ false
    → open_for_track ev.geofence_id ev.track_id (inserted env.now (breach_alert env ev)) ≡ true
unfolding open_for_track inserted
breach_fits env ev g tr = ground (arith, eq_refl ev.geofence_id, eq_refl ev.track_id)

breach_key_open :
    (g tr : String) (a : Alert) → breach_key g tr a ≡ true → open_for_track g tr a ≡ true
unfolding breach_key open_for_track
breach_key_open g tr a h = ground arith

breach_clash :
    (env : Env) (ev : GeofenceBreached) (t : Table Alert) (name : String)
    → index_conflict (breach_alert env ev) t ≡ some name
    → any_row (open_for_track ev.geofence_id ev.track_id) t ≡ true
unfolding index_conflict
breach_clash env ev t name h =
    any_row_weaker (breach_key ev.geofence_id ev.track_id)
      (open_for_track ev.geofence_id ev.track_id) (breach_key_open ev.geofence_id ev.track_id) t
      (ground arith)

-- Delivered twice, a breach of a named geofence by a named track does no more than delivered once,
-- whatever the second delivery meets: if the first one's look-up and insert run and its new id is
-- free.
pub breach_redelivered :
    (env again : Env) (ev : GeofenceBreached) (db : Db)
    → env.fault find_unresolved ≡ none
    → env.fault create_alert ≡ none
    → find env.new_id (env.others db.rows) ≡ none
    → is_empty ev.geofence_id ≡ false
    → is_empty ev.track_id ≡ false
    → handle_geofence_breached again ev (handle_geofence_breached env ev db)
      ≡ handle_geofence_breached env ev db
unfolding handle_geofence_breached
breach_redelivered env again ev db looks runs fresh g tr =
    let q : Alert → Bool = open_for_track ev.geofence_id ev.track_id in
    rw looks (
      let (b, found) =
        found_after q env (breach_alert env ev) (newest q db.rows) db refl runs fresh
          (breach_fits env ev g tr) (breach_clash env ev (env.others db.rows)) in
      raise_again again (breach_alert again ev) (again.fault find_unresolved) q
        (raise_unless env (breach_alert env ev) none (newest q db.rows) db) found)

overlap_fits :
    (env : Env) (ev : AreaGeofenceOverlapped)
    → is_empty ev.geofence_id ≡ false
    → overlap_key ev.geofence_id ev.observation_id (inserted env.now (overlap_alert env ev)) ≡ true
unfolding overlap_key inserted
overlap_fits env ev g = ground (arith, eq_refl ev.geofence_id, eq_refl ev.observation_id)

overlap_clash :
    (env : Env) (ev : AreaGeofenceOverlapped) (t : Table Alert) (name : String)
    → index_conflict (overlap_alert env ev) t ≡ some name
    → any_row (overlap_key ev.geofence_id ev.observation_id) t ≡ true
unfolding index_conflict
overlap_clash env ev t name h = ground arith

-- Delivered twice, an overlap of a named geofence does no more than delivered once, whatever the
-- second delivery meets: if the first one's look-up and insert run and its new id is free.
pub overlap_redelivered :
    (env again : Env) (ev : AreaGeofenceOverlapped) (db : Db)
    → env.fault find_unresolved ≡ none
    → env.fault create_alert ≡ none
    → find env.new_id (env.others db.rows) ≡ none
    → is_empty ev.geofence_id ≡ false
    → handle_area_geofence_overlapped again ev (handle_area_geofence_overlapped env ev db)
      ≡ handle_area_geofence_overlapped env ev db
unfolding handle_area_geofence_overlapped
overlap_redelivered env again ev db looks runs fresh g =
    let q : Alert → Bool = overlap_key ev.geofence_id ev.observation_id in
    rw looks (
      let (b, found) =
        found_after q env (overlap_alert env ev) (newest q db.rows) db refl runs fresh
          (overlap_fits env ev g) (overlap_clash env ev (env.others db.rows)) in
      raise_again again (overlap_alert again ev) (again.fault find_unresolved) q
        (raise_unless env (overlap_alert env ev) none (newest q db.rows) db) found)
