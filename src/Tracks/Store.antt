-- ===== src/Tracks/Store.antt =====
-- internal/tracks/postgres_repository.go over the queries of db/queries/tracks.sql and the unique
-- indexes of db/migrations.
use c4isr_systems.Prelude.{
  true, List, [], ◌∷◌, ℕ, String, Bool, false, ◌&&◌, ◌||◌, not, Option, none, some, [], ◌∷◌, str_eq,
  is_empty, if◌then◌else◌,
}
use c4isr_systems.Platform.Apperr.{Error, Result, ok, err, not_found_error, plain}
use c4isr_systems.Platform.Geo.{Float64, Point, Outside}
use c4isr_systems.Platform.Table.{Table, find, put, DbError, raw}
use c4isr_systems.Tracks.{Track, HistoryPoint}

-- A row of track_state.
pub record StateRow : Type 0 where
  pub position : Option Point
  pub speed : Option Float64
  pub heading : Option Float64
  pub updated_at : ℕ

-- `links` is track_observations, by its unique column observation_id; of the observations it is the
-- column processed_at.
pub record Tables : Type 0 where
  pub tracks : Table Track
  pub states : Table StateRow
  pub links : Table String
  pub observations : Table (Option ℕ)
  pub history : Table HistoryPoint

pub data Query : Type 0 where
  find_owner find_reference create_track find_owner_again find_reference_again attach_observation
        find_retry_owner mark_observation :
      Query

pub data Step : Type 0 where
  begin_transaction apply_observation create_history mark_in_transaction commit reload : Step

-- What one turn of the loop finds: other writers before its transaction and before its reload, a
-- new id for a history point, the database's clock, and the failures of its queries.
pub record Attempt : Type 0 where
  pub before : Tables → Tables
  pub between : Tables → Tables
  pub history_id : String
  pub clock : ℕ
  pub fault : Step → Option DbError

abbrev has_reference : String → Table Track → Bool
has_reference ref [] = false
has_reference ref ((id, t) ∷ ts) =
    (not (is_empty ref) && str_eq t.external_ref ref) || has_reference ref ts

abbrev is_initial : String → Table Track → Bool
is_initial obs [] = false
is_initial obs ((id, t) ∷ ts) = str_eq t.metadata.initial_observation_id obs || is_initial obs ts

-- The join of a row with its state.
abbrev pub with_state : Track → Option StateRow → Track
with_state row none = row
with_state row (some s) = record row { position = s.position; speed = s.speed; heading = s.heading }

abbrev pub joined : Tables → Track → Track
joined t row = with_state row (find row.id t.states)

pub data CreateError : Type 0 where
  duplicate_external_ref : CreateError
  create_failed : Error → CreateError

-- `Create`, on a query that fails
abbrev pub create_error : DbError → CreateError
create_error (DbError.unique name) =
    if str_eq name "tracks_external_ref_key"
    then duplicate_external_ref
    else create_failed (plain name)
create_error e = create_failed (raw e)

-- The unique index that CreateTrack runs into.
abbrev pub create_conflict : Track → Tables → Option Track → Option String
create_conflict row t (some old) = some "tracks_pkey"
create_conflict row t none =
    if has_reference row.external_ref t.tracks
    then some "tracks_external_ref_key"
    else if is_initial row.metadata.initial_observation_id t.tracks
    then some "tracks_initial_observation_id_key"
    else none

-- The row that CreateTrack inserts, and returns.
unfoldable pub created_row : Outside → ℕ → Track → Track
created_row o clock t = record t {
  first_seen_at = o.column_time t.first_seen_at;
  last_seen_at = o.column_time t.last_seen_at;
  position = none;
  speed = none;
  heading = none;
  created_at = clock;
  updated_at = clock;
  closed_at = none;
}

pub data Created : Type 0 where
  refused : CreateError → Created
  inserted : Track → Created

-- `Create`
unfoldable pub create : Outside → ℕ → Option DbError → Track → Tables → Created × Tables
create o clock (some e) track t = (refused (create_error e), t)
create o clock none track t = elim (create_conflict track t (find track.id t.tracks)) [
  | some name ↦ (refused (create_error (DbError.unique name)), t)
  | none ↦ (
    inserted (created_row o clock track),
    record t { tracks = put track.id (created_row o clock track) t.tracks },
  )
]

abbrev pub found : String → String → Tables → Option Track → Result Track
found kind id t none = err (not_found_error kind id)
found kind id t (some row) = ok (joined t row)

-- `Get`, without the counts of the observations
unfoldable pub get : Option DbError → String → Tables → Result Track
get (some e) id t = err (raw e)
get none id t = found "track" id t (find id t.tracks)

abbrev by_reference : String → Table Track → Option Track
by_reference ref [] = none
by_reference ref ((id, row) ∷ rows) =
    if not (is_empty ref) && str_eq row.external_ref ref then some row else by_reference ref rows

-- `FindByExternalRef`
unfoldable pub find_by_external_ref : Option DbError → String → Tables → Result Track
find_by_external_ref (some e) ref t = err (raw e)
find_by_external_ref none ref t = found "track" ref t (by_reference ref t.tracks)

abbrev pub linked_to : String → String → Tables → Bool
linked_to obs id t = elim (find obs t.links) [ none ↦ false | some owner ↦ str_eq owner id ]

-- `tobs.observation_id = @observation_id` on the row that the LEFT JOIN gives for a track: NULL where
-- the observation is not linked to it.
abbrev pub link_test : String → String → Tables → Option Bool
link_test obs id t = if linked_to obs id t then some true else none

-- ORDER BY ... DESC, of two values: PostgreSQL takes NULL for greater than any other.
abbrev pub sorts_before : Option Bool → Option Bool → Bool
sorts_before none (some b) = true
sorts_before (some true) (some false) = true
sorts_before _ _ = false

-- WHERE: NULL OR a test that holds is true.
abbrev pub belongs : String → Track → Tables → Bool
belongs obs row t = linked_to obs row.id t || str_eq row.metadata.initial_observation_id obs

unfoldable pub candidates : String → Tables → Table Track → List Track
candidates obs t [] = []
candidates obs t ((id, row) ∷ rows) =
    let rest = candidates obs t rows in if belongs obs row t then row ∷ rest else rest

-- LIMIT 1 after ORDER BY: of rows that sort alike, the one stored first.
unfoldable pub first_sorted : (Track → Option Bool) → List Track → Option Track
first_sorted key [] = none
first_sorted key (x ∷ xs) = elim (first_sorted key xs) [
  | none ↦ some x
  | some y ↦ if sorts_before (key y) (key x) then some y else some x
]

-- FindTrackByObservationID
unfoldable pub owner_of : String → Tables → Option Track
unfolding candidates first_sorted
owner_of obs t = first_sorted (λ row. link_test obs row.id t) (candidates obs t t.tracks)

-- `FindByObservationID`
unfoldable pub find_by_observation : Option DbError → String → Tables → Result Track
find_by_observation (some e) obs t = err (raw e)
find_by_observation none obs t = found "track for observation" obs t (owner_of obs t)
