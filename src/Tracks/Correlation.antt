-- ===== src/Tracks/Correlation.antt =====
-- The first part of internal/tracks/service.go: the track that an observation belongs to.
use c4isr_systems.Prelude.{
  ℕ, String, Bool, Option, none, some, List, [], ◌∷◌, ◌++◌, is_empty, if◌then◌else◌,
}
use c4isr_systems.Platform.Apperr.{Error, Result, ok, err, not_found, is_code, plain}
use c4isr_systems.Platform.Geo.{Float64, Point, Outside}
use c4isr_systems.Platform.Table.{DbError}
use c4isr_systems.Alerts.{Scope}
use c4isr_systems.Tracks.{active, Track, ObservationUpdate}
use c4isr_systems.Tracks.Store.{
  Tables, Query, find_owner, find_reference, create_track, find_owner_again, find_reference_again,
  Attempt, CreateError, duplicate_external_ref, create_failed, Created, refused, inserted, create,
  find_by_external_ref, find_by_observation,
}

-- events.ObservationReceived
pub record ObservationReceived : Type 0 where
  pub observation_id : String
  pub source_id : String
  pub observed_at : ℕ
  pub position : Option Point
  pub track_hint : String
  pub area_geojson : String
  pub duplicate : Bool
  pub retry : Bool

-- events.TrackCreated, events.TrackUpdated and events.TrackClosed
pub data Event : Type 0 where
  track_created :
      (at : ℕ) (track_id external_ref : String) (position : Option Point) (observed_at : ℕ) → Event
  track_updated :
      (at : ℕ) (track_id : String) (position : Option Point) (speed heading : Option Float64)
      (observed_at last_seen_at : ℕ)
      → Event
  track_closed : (at : ℕ) (track_id : String) → Event

-- What one call finds outside: clocks, a new id, the scope of a scenario, and for each query of
-- its own the failure and what other writers have done before it; the loop tries three times.
pub record Env : Type 0 where
  pub now : ℕ
  pub clock : ℕ
  pub new_id : String
  pub scope : Option Scope
  pub fault : Query → Option DbError
  pub others : Query → Tables → Tables
  pub first : Attempt
  pub second : Attempt
  pub third : Attempt

pub record Db : Type 0 where
  pub tables : Tables
  pub outbox : List Event

-- Before a query.
abbrev pub wait : Env → Query → Db → Db
wait env q db = record db { tables = env.others q db.tables }

-- The track that `createTrack` hands to the repository.
abbrev pub draft : Env → ObservationUpdate → Track
draft env u = record {
  id = env.new_id;
  external_ref = u.track_hint;
  status = active;
  first_seen_at = u.observed_at;
  last_seen_at = u.observed_at;
  position = none;
  speed = none;
  heading = none;
  metadata = record {
    source_id = u.source_id;
    initial_observation_id = u.observation_id;
    scenario = elim env.scope [ none ↦ none | some s ↦ some (s, u.track_hint) ];
  };
  created_at = 0;
  updated_at = 0;
  closed_at = none;
}

-- The error that `createTrack` goes on with; `ErrDuplicateExternalRef` is a plain one.
abbrev pub as_error : CreateError → Error
as_error duplicate_external_ref = plain "track external reference already exists"
as_error (create_failed e) = e

abbrev or_error : Error → Result Track → Result Track
or_error e (ok t) = ok t
or_error e (err other) = err e

-- The second look-up, by the hint.
abbrev pub resolve_reference : Env → ObservationUpdate → CreateError → Db → Result Track × Db
resolve_reference env u (create_failed e) db = (err e, db)
resolve_reference env u duplicate_external_ref db =
    if is_empty u.track_hint then (err (as_error duplicate_external_ref), db) else (
      or_error (as_error duplicate_external_ref) (
          find_by_external_ref (env.fault find_reference_again) u.track_hint
            (wait env find_reference_again db).tables),
      wait env find_reference_again db,
    )

-- The first look-up after an insert that was refused, by the observation.
abbrev pub resolve_owner :
    Env → ObservationUpdate → CreateError → Db → Result Track → Result Track × Db
resolve_owner env u e db (ok t) = (ok t, db)
resolve_owner env u e db (err other) = resolve_reference env u e db

abbrev pub after_insert : Env → ObservationUpdate → Db → Created × Tables → Result Track × Db
after_insert env u db (refused e, t) =
    let waited = wait env find_owner_again (record db { tables = t }) in
    resolve_owner env u e waited
      (find_by_observation (env.fault find_owner_again) u.observation_id waited.tables)
after_insert env u db (inserted row, t) = (
  ok row,
  record db {
    tables = t;
    outbox =
        db.outbox ++ track_created env.now row.id row.external_ref u.position u.observed_at ∷ [];
  },
)

-- `createTrack`
unfoldable pub start_track : Outside → Env → ObservationUpdate → Db → Result Track × Db
start_track o env u db =
    let waited = wait env create_track db in
    after_insert env u waited
      (create o env.clock (env.fault create_track) (draft env u) waited.tables)

-- A look-up that ends in "not found" goes on.
abbrev pub or_else : Result Track → Db → (Db → Result Track × Db) → Result Track × Db
or_else (ok t) db next = (ok t, db)
or_else (err e) db next = if is_code e not_found then next db else (err e, db)

abbrev pub correlate_hint : Outside → Env → ObservationUpdate → Db → Result Track × Db
correlate_hint o env u db =
    let waited = wait env find_reference db in
    if is_empty u.track_hint
    then start_track o env u db
    else or_else (find_by_external_ref (env.fault find_reference) u.track_hint waited.tables) waited
        (start_track o env u)

-- `correlate`
unfoldable pub correlate : Outside → Env → ObservationUpdate → Db → Result Track × Db
correlate o env u db =
    let waited = wait env find_owner db in
    if u.duplicate
    then or_else (find_by_observation (env.fault find_owner) u.observation_id waited.tables) waited
        (correlate_hint o env u)
    else correlate_hint o env u db
