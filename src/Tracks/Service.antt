-- ===== src/Tracks/Service.antt =====
-- internal/tracks/service.go: the projection of observations into tracks.
use c4isr_systems.Prelude.{
  ℕ, ℤ, String, Bool, true, false, ◌&&◌, not, Option, none, some, List, [], ◌∷◌, ◌++◌, ltb,
  is_empty, if◌then◌else◌, pos, negsuc, zero, suc, sub_time,
}
use c4isr_systems.Platform.Apperr.{Error, Result, ok, err}
use c4isr_systems.Platform.Geo.{Float64, Point, Outside}
use c4isr_systems.Platform.Table.{DbError}
use c4isr_systems.Tracks.{Track, HistoryPoint, StateUpdate, ObservationUpdate}
use c4isr_systems.Tracks.Store.{
  Tables, attach_observation, find_retry_owner, mark_observation, reload, Attempt, get,
  find_by_observation,
}
use c4isr_systems.Tracks.Writes.{attach_observation_to, mark, apply_with_history, close_row}
use c4isr_systems.Tracks.Correlation.{
  ObservationReceived, track_updated, track_closed, Env, Db, wait, correlate,
}

abbrev motion_over : Outside → Point → Point → ℤ → Option Float64 × Option Float64
motion_over o here there (negsuc d) = (none, none)
motion_over o here there (pos zero) = (none, none)
motion_over o here there (pos (suc d)) =
    (some (o.speed_between here there (suc d)), some (o.bearing here there))

-- `motion`
unfoldable pub motion : Outside → Track → ObservationUpdate → Option Float64 × Option Float64
motion o track u = elim track.position [
  | none ↦ (none, none)
  | some here ↦ elim u.position [
    | none ↦ (none, none)
    | some there ↦ motion_over o here there (sub_time u.observed_at track.last_seen_at)
  ]
]

abbrev pub state_update : Outside → Track → ObservationUpdate → StateUpdate
state_update o track u =
    let m = motion o track u in
    record { track_id = track.id; position = u.position; speed = m.0; heading = m.1 }

abbrev pub history_point : String → StateUpdate → ObservationUpdate → Option HistoryPoint
history_point id s u = elim u.position [
  | none ↦ none
  | some p ↦ some (record {
    id = id;
    track_id = s.track_id;
    observed_at = u.observed_at;
    position = some p;
    speed = s.speed;
    heading = s.heading;
  })
]

-- How one turn of the loop ends: by an error, as too late, by the update, or by another round with
-- the track that was read again.
pub data Turn : Type 0 where
  fails : Error → Turn
  late : Turn
  moves : StateUpdate → Turn
  again : Track → Turn

-- After the reload.
abbrev pub after_reload : Track → ObservationUpdate → Result Track → Turn
after_reload track u (err e) = fails e
after_reload track u (ok fresh) =
    if not (ltb track.last_seen_at fresh.last_seen_at) && not (ltb fresh.last_seen_at u.observed_at)
    then late
    else again fresh

abbrev pub after_apply :
    Attempt → Track → ObservationUpdate → StateUpdate → Db → Result Bool × Tables → Turn × Db
after_apply a track u s db (err e, t) = (fails e, record db { tables = t })
after_apply a track u s db (ok true, t) = (moves s, record db { tables = t })
after_apply a track u s db (ok false, t) = (
  after_reload track u (get (a.fault reload) track.id (a.between t)),
  record db { tables = a.between t },
)

-- One turn of the loop.
unfoldable pub turn : Outside → ObservationUpdate → Track → Attempt → Db → Turn × Db
turn o u track a db =
    let s = state_update o track u in
    if ltb u.observed_at track.last_seen_at
    then (late, db)
    else after_apply a track u s db (
        apply_with_history o a s u.observed_at track.last_seen_at (history_point a.history_id s u)
          u.observation_id (a.before db.tables))

-- What became of an observation.
pub data Outcome : Type 0 where
  ignored already_attached outdated exhausted : Outcome
  broken : Error → Outcome
  projected_into : StateUpdate → Outcome

-- The loop over the attempts that are left.
unfoldable pub project : Outside → ObservationUpdate → Track → List Attempt → Db → Outcome × Db
project o u track [] db = (exhausted, db)
project o u track (a ∷ attempts) db =
    let t = turn o u track a db in
    elim t.0 [
      | fails e ↦ (broken e, t.1)
      | late ↦ (outdated, t.1)
      | moves s ↦ (projected_into s, t.1)
      | again fresh ↦ project o u fresh attempts t.1
    ]

-- `markProcessed`; a failure is only logged.
unfoldable pub mark_processed : Env → ObservationUpdate → Db → Db
mark_processed env u db =
    let waited = wait env mark_observation db in
    elim (env.fault mark_observation) [
      | some e ↦ waited
      | none ↦ record waited { tables = mark env.clock u.observation_id waited.tables }
    ]

-- The end of the handler, behind the loop.
abbrev pub finish : Env → ObservationUpdate → Outcome × Db → Outcome × Db
finish env u (broken e, db) = (broken e, db)
finish env u (projected_into s, db) =
    let marked = mark_processed env u db in
    (
      projected_into s,
      record marked {
        outbox =
            marked.outbox
            ++ track_updated env.now s.track_id u.position s.speed s.heading u.observed_at
                u.observed_at
              ∷ [];
      },
    )
finish env u (outcome, db) = (outcome, mark_processed env u db)

abbrev pub three_times : Env → List Attempt
three_times env = env.first ∷ env.second ∷ env.third ∷ []

abbrev pub advance_track : Outside → Env → ObservationUpdate → Db → Result Track → Outcome × Db
advance_track o env u db (err e) = (broken e, db)
advance_track o env u db (ok track) = finish env u (project o u track (three_times env) db)

-- After the attachment.
abbrev pub after_attach :
    Outside → Env → ObservationUpdate → Bool → Track → Db → Result Bool × Tables → Outcome × Db
after_attach o env u retry track db (err e, t) = (broken e, record db { tables = t })
after_attach o env u retry track db (ok true, t) =
    advance_track o env u (record db { tables = t }) (ok track)
after_attach o env u retry track db (ok false, t) =
    let waited = wait env find_retry_owner (record db { tables = t }) in
    if retry
    then advance_track o env u waited
        (find_by_observation (env.fault find_retry_owner) u.observation_id waited.tables)
    else (already_attached, record db { tables = t })

abbrev pub after_correlate :
    Outside → Env → ObservationUpdate → Bool → Result Track × Db → Outcome × Db
after_correlate o env u retry (err e, db) = (broken e, db)
after_correlate o env u retry (ok track, db) =
    let waited = wait env attach_observation db in
    after_attach o env u retry track waited
      (attach_observation_to (env.fault attach_observation) u.observation_id track.id waited.tables)

abbrev pub update_of : ObservationReceived → ObservationUpdate
update_of ev = record {
  observation_id = ev.observation_id;
  source_id = ev.source_id;
  observed_at = ev.observed_at;
  position = ev.position;
  track_hint = ev.track_hint;
  duplicate = ev.duplicate;
}

-- `HandleObservationReceived`
unfoldable pub handle_observation_received : Outside → Env → ObservationReceived → Db → Outcome × Db
handle_observation_received o env ev db =
    if ev.duplicate && not ev.retry
    then (ignored, db)
    else if not (is_empty ev.area_geojson)
    then (ignored, db)
    else after_correlate o env (update_of ev) ev.retry (correlate o env (update_of ev) db)

-- `Close`
unfoldable pub close_track : ℕ → ℕ → Option DbError → String → Db → Result Track × Db
close_track now clock fault id db =
    let r = close_row fault clock id db.tables in
    elim r.0 [
      | err e ↦ (err e, record db { tables = r.1 })
      | ok row ↦
          (ok row, record db { tables = r.1; outbox = db.outbox ++ track_closed now row.id ∷ [] })
    ]
