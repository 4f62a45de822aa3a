-- ===== src/Tracks/Redelivery.antt =====
-- The redelivery of an observation whose projection has failed (internal/tracks/service.go).
use c4isr_systems.Prelude.{
  ℕ, String, ◌≡◌, refl, ◌∙◌, ap, Bool, true, false, ◌&&◌, ◌||◌, not, Option, none, some, List, [],
  ◌∷◌, ◌++◌, ltb, is_empty, if-true, if-false, arith,
}
use c4isr_systems.Platform.Apperr.{ok}
use c4isr_systems.Platform.Geo.{Outside}
use c4isr_systems.Platform.Table.{find}
use c4isr_systems.Tracks.{Track, StateUpdate, ObservationUpdate}
use c4isr_systems.Tracks.Store.{
  Tables, Query, Step, Attempt, joined, owner_of, find_by_observation, find_owner,
  attach_observation, find_retry_owner, mark_observation,
}
use c4isr_systems.Tracks.Writes.{is_none, link, attach_observation_to, mark}
use c4isr_systems.Tracks.Correlation.{
  ObservationReceived, Env, Db, wait, track_updated, correlate, or_else, correlate_hint,
}
use c4isr_systems.Tracks.Service.{
  state_update, Turn, moves, turn, Outcome, project, projected_into, mark_processed, finish,
  three_times, advance_track, after_attach, after_correlate, update_of, handle_observation_received,
}
use c4isr_systems.Tracks.Turning.{turned_tables, turn_runs, turned_row, turned_mark}

-- Nothing fails and nobody else writes, up to the end of the first turn.
pub record IsCalm (env : Env) : Type 0 where
  pub others : (q : Query) (t : Tables) → env.others q t ≡ t
  pub faults : (q : Query) → env.fault q ≡ none
  pub before : (t : Tables) → env.first.before t ≡ t
  pub steps : (s : Step) → env.first.fault s ≡ none

waited : (env : Env) (q : Query) (db : Db) → IsCalm env → wait env q db ≡ db
waited env q db calm = rw (calm.others q db.tables) refl

-- Looking up the owner of an observation, when nothing is in the way.
find_runs :
    (env : Env) (q : Query) (obs : String) (row : Track) (db : Db)
    → IsCalm env
    → owner_of obs db.tables ≡ some row
    → find_by_observation (env.fault q) obs (wait env q db).tables ≡ ok (joined db.tables row)
unfolding find_by_observation
find_runs env q obs row db calm owner =
    rw (calm.faults q, calm.others q db.tables, find_by_observation, owner) refl

correlate_runs :
    (o : Outside) (env : Env) (u : ObservationUpdate) (row : Track) (db : Db)
    → IsCalm env
    → u.duplicate ≡ true
    → owner_of u.observation_id db.tables ≡ some row
    → correlate o env u db ≡ (ok (joined db.tables row), db)
unfolding correlate
correlate_runs o env u row db calm repeated owner =
    if-true u.duplicate _ repeated
    ∙ ap (λ r. or_else r (wait env find_owner db) (correlate_hint o env u))
        (find_runs env find_owner u.observation_id row db calm owner)
    ∙ ap (λ d. (ok (joined db.tables row), d)) (waited env find_owner db calm)

link_refuses :
    (obs id : String) (t : Tables) {owner : String} {p : Option ℕ}
    → find obs t.observations ≡ some p
    → find obs t.links ≡ some owner
    → link obs id t ≡ (false, t)
unfolding link
link_refuses obs id t stored linked = rw (link, stored, linked) refl

attach_runs :
    (env : Env) (obs id : String) (t : Tables) {owner : String} {p : Option ℕ}
    → IsCalm env
    → find obs t.observations ≡ some p
    → find obs t.links ≡ some owner
    → attach_observation_to (env.fault attach_observation) obs id t ≡ (ok false, t)
unfolding attach_observation_to
attach_runs env obs id t calm stored linked =
    ap (λ f. attach_observation_to f obs id t) (calm.faults attach_observation)
    ∙ ap (λ (r : Bool × Tables). (ok r.0, r.1)) (link_refuses obs id t stored linked)

mark_runs :
    (env : Env) (u : ObservationUpdate) (db : Db)
    → IsCalm env
    → mark_processed env u db ≡ record db { tables = mark env.clock u.observation_id db.tables }
unfolding mark_processed
mark_runs env u db calm =
    rw (mark_processed, calm.faults mark_observation, calm.others mark_observation db.tables) refl

project_runs :
    (o : Outside) (u : ObservationUpdate) (track : Track) (a : Attempt) (rest : List Attempt)
    (db : Db) {s : StateUpdate} {next : Db}
    → turn o u track a db ≡ (moves s, next)
    → project o u track (a ∷ rest) db ≡ (projected_into s, next)
unfolding project
project_runs o u track a rest db {s} {next} turned =
    rw (project, turned) (ap (λ (r : Turn × Db). (projected_into s, r.1)) turned)

-- A redelivery whose observation is linked already.
attached_runs :
    (o : Outside) (env : Env) (u : ObservationUpdate) (retry : Bool) (row : Track) (db : Db)
    {owner : String} {p : Option ℕ}
    → IsCalm env
    → retry ≡ true
    → owner_of u.observation_id db.tables ≡ some row
    → find u.observation_id db.tables.observations ≡ some p
    → find u.observation_id db.tables.links ≡ some owner
    → after_correlate o env u retry (ok (joined db.tables row), db)
      ≡ finish env u (project o u (joined db.tables row) (three_times env) db)
attached_runs o env u retry row db calm retries owner stored linked =
    let track = joined db.tables row in
    ap
      (λ d.
        after_attach o env u retry track d
          (attach_observation_to (env.fault attach_observation) u.observation_id track.id d.tables))
      (waited env attach_observation db calm)
    ∙ ap (after_attach o env u retry track db)
        (attach_runs env u.observation_id track.id db.tables calm stored linked)
    ∙ if-true retry _ retries
    ∙ ap (advance_track o env u (wait env find_retry_owner db))
        (find_runs env find_retry_owner u.observation_id row db calm owner)
    ∙ ap (λ d. finish env u (project o u track (three_times env) d))
        (waited env find_retry_owner db calm)

module _ (o : Outside) (env : Env) (ev : ObservationReceived) (row : Track) (db : Db)
    (calm : IsCalm env) (repeated : ev.duplicate ≡ true) (retries : ev.retry ≡ true)
    (point : is_empty ev.area_geojson ≡ true)
    (owner : owner_of ev.observation_id db.tables ≡ some row)
    (there : find row.id db.tables.tracks ≡ some row) where
  handled :
      {id : String} {p : Option ℕ}
      → find ev.observation_id db.tables.observations ≡ some p
      → find ev.observation_id db.tables.links ≡ some id
      → handle_observation_received o env ev db
        ≡ finish env
            (update_of ev)
            (project o (update_of ev) (joined db.tables row) (three_times env) db)
  unfolding handle_observation_received
  handled stored linked =
      if-false (ev.duplicate && not ev.retry) _ (ground arith)
      ∙ if-false (not (is_empty ev.area_geojson)) _ (ground arith)
      ∙ ap (after_correlate o env (update_of ev) ev.retry)
          (correlate_runs o env (update_of ev) row db calm repeated owner)
      ∙ attached_runs o env (update_of ev) ev.retry row db calm retries owner stored linked

  -- A point observation that is stored and linked is redelivered as a retry; nothing fails, nobody
  -- else writes, and the new history id is free. If the observation is not older than its track, and
  -- newer or the track has no state yet, then, whatever the track's status, the track moves to the
  -- time of the observation, the observation is marked and track.updated is published.
  pub redelivery_projects :
      {id : String} {p : Option ℕ}
      → find ev.observation_id db.tables.observations ≡ some p
      → find ev.observation_id db.tables.links ≡ some id
      → ltb ev.observed_at row.last_seen_at ≡ false
      → (ltb row.last_seen_at (o.column_time ev.observed_at)
          || is_none (find row.id db.tables.states))
        ≡ true
      → find env.first.history_id db.tables.history ≡ none
      → ((handle_observation_received o env ev db).0
          ≡ projected_into (state_update o (joined db.tables row) (update_of ev)))
        × (find row.id (handle_observation_received o env ev db).1.tables.tracks
            ≡ some (record row {
              last_seen_at = o.column_time ev.observed_at;
              updated_at = env.first.clock;
            }))
        × (find ev.observation_id (handle_observation_received o env ev db).1.tables.observations
            ≡ some (some env.clock))
        × ((handle_observation_received o env ev db).1.outbox
            ≡ db.outbox
              ++ track_updated env.now
                  (joined db.tables row).id
                  ev.position
                  (state_update o (joined db.tables row) (update_of ev)).speed
                  (state_update o (joined db.tables row) (update_of ev)).heading
                  ev.observed_at
                  ev.observed_at
                ∷ [])
  redelivery_projects stored linked current newer free =
      let u = update_of ev in
      let track = joined db.tables row in
      let s = state_update o track u in
      let turned =
        turn_runs o u row env.first db (calm.before db.tables) calm.steps there current newer
          free in
      let next = record db { tables = turned_tables o env.first u row db.tables } in
      let done =
        handled stored linked
        ∙ ap (finish env u)
            (project_runs o u track env.first (env.second ∷ env.third ∷ []) db turned)
        ∙ ap
            (λ (m : Db). (
              projected_into s,
              record m {
                outbox =
                    m.outbox
                    ++ track_updated env.now s.track_id u.position s.speed s.heading u.observed_at
                        u.observed_at
                      ∷ [];
              },
            ))
            (mark_runs env u next calm) in
      (
        ap (λ (r : Outcome × Db). r.0) done,
        ap (λ (r : Outcome × Db). find row.id r.1.tables.tracks) done
            ∙ turned_row o env.clock env.first u row db.tables,
        ap (λ (r : Outcome × Db). find ev.observation_id r.1.tables.observations) done
            ∙ turned_mark o env.clock env.first u row db.tables stored,
        ap (λ (r : Outcome × Db). r.1.outbox) done,
      )
