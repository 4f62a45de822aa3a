-- ===== src/Tracks/Walk.antt =====
-- What every write of the repository and every other writer keeps, the handler of an observation
-- keeps (internal/tracks/service.go).
use c4isr_systems.Prelude.{
  ℕ, String, Bool, true, false, ◌&&◌, not, Option, List, [], ◌∷◌, ltb, is_empty, All, if_both,
  Option-cases, inl, inr,
}
use c4isr_systems.Platform.Apperr.{Result, ok, err, not_found, is_code}
use c4isr_systems.Platform.Geo.{Outside}
use c4isr_systems.Platform.Table.{DbError}
use c4isr_systems.Tracks.{Track, HistoryPoint, StateUpdate, ObservationUpdate}
use c4isr_systems.Tracks.Store.{
  Tables, Query, find_owner, find_reference, create_track, find_owner_again, find_reference_again,
  attach_observation, find_retry_owner, mark_observation, Attempt, CreateError,
  duplicate_external_ref, create_failed, Created, refused, inserted, create, find_by_external_ref,
  find_by_observation,
}
use c4isr_systems.Tracks.Writes.{attach_observation_to, mark, apply_with_history}
use c4isr_systems.Tracks.Correlation.{
  ObservationReceived, Env, Db, wait, draft, resolve_reference, resolve_owner, after_insert,
  start_track, or_else, correlate_hint, correlate,
}
use c4isr_systems.Tracks.Service.{
  state_update, history_point, Turn, fails, late, moves, again, after_apply, turn, Outcome, project,
  mark_processed, finish, three_times, advance_track, after_attach, after_correlate, update_of,
  handle_observation_received, outdated, broken, projected_into,
}

-- The writes of the repository keep a property of the tables.
pub record IsKept (o : Outside) (P : Tables → Type 0) : Type 0 where
  pub creates :
      (clock : ℕ) (fault : Option DbError) (track : Track) (t : Tables)
      → P t
      → P (create o clock fault track t).1
  pub attaches :
      (fault : Option DbError) (obs id : String) (t : Tables)
      → P t
      → P (attach_observation_to fault obs id t).1
  pub applies :
      (a : Attempt) (u : StateUpdate) (observed expected : ℕ) (h : Option HistoryPoint)
      (obs : String) (t : Tables)
      → P t
      → P (apply_with_history o a u observed expected h obs t).1
  pub marks : (clock : ℕ) (obs : String) (t : Tables) → P t → P (mark clock obs t)

pub record Respects (P : Tables → Type 0) (a : Attempt) : Type 0 where
  pub before : (t : Tables) → P t → P (a.before t)
  pub between : (t : Tables) → P t → P (a.between t)

-- And so do the other writers during a call.
pub record IsRespected (P : Tables → Type 0) (env : Env) : Type 0 where
  pub others : (q : Query) (t : Tables) → P t → P (env.others q t)
  pub turns : All (Respects P) (three_times env)

module _ (o : Outside) (P : Tables → Type 0) (kept : IsKept o P) where
  turn-Kept :
      (u : ObservationUpdate) (track : Track) (a : Attempt) (db : Db)
      → Respects P a
      → P db.tables
      → P (turn o u track a db).1.tables
  unfolding turn
  turn-Kept u track a db r h =
      let s = state_update o track u in
      if_both (λ (x : Turn × Db). P x.1.tables) (ltb u.observed_at track.last_seen_at) h
        (go s
          (apply_with_history o a s u.observed_at track.last_seen_at
            (history_point a.history_id s u) u.observation_id (a.before db.tables))
          (kept.applies a s u.observed_at track.last_seen_at (history_point a.history_id s u)
            u.observation_id (a.before db.tables) (r.before db.tables h)))
    where
      go :
          (s : StateUpdate) (x : Result Bool × Tables)
          → P x.1
          → P (after_apply a track u s db x).1.tables
      go s (err e, t) k = k
      go s (ok true, t) k = k
      go s (ok false, t) k = r.between t k

  project-Kept :
      (u : ObservationUpdate) (track : Track) (attempts : List Attempt) (db : Db)
      → All (Respects P) attempts
      → P db.tables
      → P (project o u track attempts db).1.tables
  unfolding project
  project-Kept u track [] db r h = h
  project-Kept u track (a ∷ attempts) db r h =
      go (turn-Kept u track a db r.0 h)
        (λ fresh k. project-Kept u fresh attempts (turn o u track a db).1 r.1 k)
        (turn o u track a db).0
    where
      next : Db
      next = (turn o u track a db).1

      go :
          P next.tables
          → ((fresh : Track) → P next.tables → P (project o u fresh attempts next).1.tables)
          → (x : Turn)
          → P
              (elim x as (λ y. Outcome × Db) [
                | fails e ↦ (broken e, next)
                | late ↦ (outdated, next)
                | moves s ↦ (projected_into s, next)
                | again fresh ↦ project o u fresh attempts next
              ]).1.tables
      go k rest (fails e) = k
      go k rest late = k
      go k rest (moves s) = k
      go k rest (again fresh) = rest fresh k

  module _ (env : Env) (respected : IsRespected P env) where
    mark_processed-Kept :
        (u : ObservationUpdate) (db : Db) → P db.tables → P (mark_processed env u db).tables
    unfolding mark_processed
    mark_processed-Kept u db h =
        let waited = respected.others mark_observation db.tables h in
        elim (Option-cases (env.fault mark_observation)) [
          | inr (e, f) ↦ rw (f, mark_processed) waited
          | inl f ↦
              rw (f, mark_processed)
                (kept.marks env.clock u.observation_id (env.others mark_observation db.tables)
                  waited)
        ]

    finish-Kept :
        (u : ObservationUpdate) (x : Outcome × Db) → P x.1.tables → P (finish env u x).1.tables
    finish-Kept u (broken e, db) h = h
    finish-Kept u (projected_into s, db) h = mark_processed-Kept u db h
    finish-Kept u (_, db) h = mark_processed-Kept u db h

    start_track-Kept :
        (u : ObservationUpdate) (db : Db) → P db.tables → P (start_track o env u db).1.tables
    unfolding start_track
    start_track-Kept u db h =
        let waited = respected.others create_track db.tables h in
        go
          (create o env.clock (env.fault create_track) (draft env u)
            (env.others create_track db.tables))
          (kept.creates env.clock (env.fault create_track) (draft env u)
            (env.others create_track db.tables) waited)
      where
        start : Db
        start = wait env create_track db

        referred :
            (e : CreateError) (d : Db) → P d.tables → P (resolve_reference env u e d).1.tables
        referred (create_failed e) d k = k
        referred duplicate_external_ref d k =
            if_both (λ (r : Result Track × Db). P r.1.tables) (is_empty u.track_hint) k
              (respected.others find_reference_again d.tables k)

        owned :
            (e : CreateError) (d : Db) (r : Result Track)
            → P d.tables
            → P (resolve_owner env u e d r).1.tables
        owned e d (ok t) k = k
        owned e d (err other) k = referred e d k

        go : (x : Created × Tables) → P x.1 → P (after_insert env u start x).1.tables
        go (inserted row, t) k = k
        go (refused e, t) k =
            let waited = wait env find_owner_again (record start { tables = t }) in
            owned e waited
              (find_by_observation (env.fault find_owner_again) u.observation_id waited.tables)
              (respected.others find_owner_again t k)

    or_else-Kept :
        (r : Result Track) (db : Db) (next : Db → Result Track × Db)
        → P db.tables
        → ((d : Db) → P d.tables → P (next d).1.tables)
        → P (or_else r db next).1.tables
    or_else-Kept (ok t) db next h k = h
    or_else-Kept (err e) db next h k =
        if_both (λ (r : Result Track × Db). P r.1.tables) (is_code e not_found) (k db h) h

    correlate_hint-Kept :
        (u : ObservationUpdate) (db : Db) → P db.tables → P (correlate_hint o env u db).1.tables
    correlate_hint-Kept u db h =
        let waited = wait env find_reference db in
        if_both (λ (r : Result Track × Db). P r.1.tables) (is_empty u.track_hint)
          (start_track-Kept u db h)
          (or_else-Kept (find_by_external_ref (env.fault find_reference) u.track_hint waited.tables)
            waited (start_track o env u) (respected.others find_reference db.tables h)
            (start_track-Kept u))

    correlate-Kept :
        (u : ObservationUpdate) (db : Db) → P db.tables → P (correlate o env u db).1.tables
    unfolding correlate
    correlate-Kept u db h =
        let waited = wait env find_owner db in
        if_both (λ (r : Result Track × Db). P r.1.tables) u.duplicate
          (or_else-Kept (find_by_observation (env.fault find_owner) u.observation_id waited.tables)
            waited (correlate_hint o env u) (respected.others find_owner db.tables h)
            (correlate_hint-Kept u))
          (correlate_hint-Kept u db h)

    advance_track-Kept :
        (u : ObservationUpdate) (db : Db) (r : Result Track)
        → P db.tables
        → P (advance_track o env u db r).1.tables
    advance_track-Kept u db (err e) h = h
    advance_track-Kept u db (ok track) h =
        finish-Kept u (project o u track (three_times env) db)
          (project-Kept u track (three_times env) db respected.turns h)

    after_attach-Kept :
        (u : ObservationUpdate) (retry : Bool) (track : Track) (db : Db) (x : Result Bool × Tables)
        → P x.1
        → P (after_attach o env u retry track db x).1.tables
    after_attach-Kept u retry track db (err e, t) h = h
    after_attach-Kept u retry track db (ok true, t) h =
        advance_track-Kept u (record db { tables = t }) (ok track) h
    after_attach-Kept u retry track db (ok false, t) h =
        let waited = wait env find_retry_owner (record db { tables = t }) in
        if_both (λ (r : Outcome × Db). P r.1.tables) retry
          (advance_track-Kept u waited
            (find_by_observation (env.fault find_retry_owner) u.observation_id waited.tables)
            (respected.others find_retry_owner t h))
          h

    after_correlate-Kept :
        (u : ObservationUpdate) (retry : Bool) (x : Result Track × Db)
        → P x.1.tables
        → P (after_correlate o env u retry x).1.tables
    after_correlate-Kept u retry (err e, db) h = h
    after_correlate-Kept u retry (ok track, db) h =
        let waited = wait env attach_observation db in
        after_attach-Kept u retry track waited
          (attach_observation_to (env.fault attach_observation) u.observation_id track.id
            waited.tables)
          (kept.attaches (env.fault attach_observation) u.observation_id track.id waited.tables
            (respected.others attach_observation db.tables h))

    -- The handler keeps it.
    pub handle_observation_received-Kept :
        (ev : ObservationReceived) (db : Db)
        → P db.tables
        → P (handle_observation_received o env ev db).1.tables
    unfolding handle_observation_received
    handle_observation_received-Kept ev db h =
        if_both (λ (r : Outcome × Db). P r.1.tables) (ev.duplicate && not ev.retry) h
          (if_both (λ (r : Outcome × Db). P r.1.tables) (not (is_empty ev.area_geojson)) h
            (after_correlate-Kept (update_of ev) ev.retry (correlate o env (update_of ev) db)
              (correlate-Kept (update_of ev) db h)))
