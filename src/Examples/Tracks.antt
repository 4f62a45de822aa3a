-- ===== src/Examples/Tracks.antt =====
-- The theorems on internal/tracks at concrete inputs.
use Prim.Native.Nat.{◌%◌}
use c4isr_systems.Prelude.{◌≡◌, refl, true, false, Option, none, some, List, [], ◌∷◌, ◌++◌, ◌-◌}
use c4isr_systems.Platform.Apperr.{ok}
use c4isr_systems.Platform.Geo.{Outside, Point}
use c4isr_systems.Platform.Table.{find, DbError}
use c4isr_systems.Tracks.{active, Track, StateUpdate}
use c4isr_systems.Tracks.Store.{
  Query, Step, create_history, Tables, Attempt, joined, linked_to, owner_of, candidates,
  first_sorted, find_by_observation,
}
use c4isr_systems.Tracks.Writes.{apply_with_history}
use c4isr_systems.Tracks.Correlation.{ObservationReceived, Env, Db, track_updated}
use c4isr_systems.Tracks.Service.{
  projected_into, state_update, update_of, handle_observation_received,
}
use c4isr_systems.Tracks.Growth.{Grows, Grows-refl}
use c4isr_systems.Tracks.Evidence.{Call, observes, closes, apply_all, LetsGrow, apply_all-Grows}
use c4isr_systems.Tracks.Atomic.{Applied, apply_with_history-Applied}
use c4isr_systems.Tracks.Ownership.{initial_shadows_link}
use c4isr_systems.Tracks.Redelivery.{IsCalm, redelivery_projects}

-- A clock of microseconds, and a flat earth.
abbrev outside : Outside
outside = record { column_time = λ t. t - t % 1000; speed_between = λ a b d. d; bearing = λ a b. 0 }

abbrev no_fault : Step → Option DbError
no_fault s = none

abbrev attempt : Attempt
attempt = record {
  before = λ t. t;
  between = λ t. t;
  history_id = "trh-1";
  clock = 9000;
  fault = no_fault;
}

abbrev no_query_fault : Query → Option DbError
no_query_fault q = none

abbrev calm : Env
calm = record {
  now = 9000;
  clock = 9500;
  new_id = "trk-1";
  scope = none;
  fault = no_query_fault;
  others = λ q t. t;
  first = attempt;
  second = attempt;
  third = attempt;
}

abbrev history_fault : Step → Option DbError
history_fault create_history = some (DbError.failed "connection reset")
history_fault _ = none

abbrev failing_attempt : Attempt
failing_attempt = record attempt { fault = history_fault }

abbrev failing : Env
failing = record calm { first = failing_attempt }

abbrev at_sea : Point
at_sea = record { lat = 0; lng = 0 }

abbrev observation : ObservationReceived
observation = record {
  observation_id = "obs-1";
  source_id = "src-1";
  observed_at = 5500;
  position = some at_sea;
  track_hint = "";
  area_geojson = "";
  duplicate = false;
  retry = false;
}

abbrev redelivered : ObservationReceived
redelivered = record observation { duplicate = true; retry = true }

abbrev tables : Tables
tables = record {
  tracks = [];
  states = [];
  links = [];
  observations = ("obs-1", none) ∷ [];
  history = [];
}

abbrev start : Db
start = record { tables = tables; outbox = [] }

attempt-LetsGrow : LetsGrow attempt
attempt-LetsGrow = record { before = λ t. Grows-refl t; between = λ t. Grows-refl t }

failing_attempt-LetsGrow : LetsGrow failing_attempt
failing_attempt-LetsGrow = record { before = λ t. Grows-refl t; between = λ t. Grows-refl t }

-- The projection fails, the observation comes again, and the track is closed.
abbrev calls : List Call
calls =
    observes failing observation ∷ observes calm redelivered ∷ closes 9900 9900 none "trk-1" ∷ []

apply_all-Grows_example : Grows start.tables (apply_all outside calls start).tables
apply_all-Grows_example = apply_all-Grows outside calls start (
  (λ q t. Grows-refl t, (failing_attempt-LetsGrow, (attempt-LetsGrow, (attempt-LetsGrow, tt)))),
  ((λ q t. Grows-refl t, (attempt-LetsGrow, (attempt-LetsGrow, (attempt-LetsGrow, tt)))), (tt, tt)),
)

abbrev row : Track
row = record {
  id = "trk-1";
  external_ref = "";
  status = active;
  first_seen_at = 5000;
  last_seen_at = 5000;
  position = none;
  speed = none;
  heading = none;
  metadata = record { source_id = "src-1"; initial_observation_id = "obs-1"; scenario = none };
  created_at = 9000;
  updated_at = 9000;
  closed_at = none;
}

abbrev half_done : Db
half_done = record {
  tables = record tables { tracks = ("trk-1", row) ∷ []; links = ("obs-1", "trk-1") ∷ [] };
  outbox = [];
}

abbrev update : StateUpdate
update = record { track_id = "trk-1"; position = some at_sea; speed = none; heading = none }

apply_with_history-Applied_example :
    Applied outside failing_attempt update 5500 5000 none "obs-1" half_done.tables
      (apply_with_history outside failing_attempt update 5500 5000 none "obs-1" half_done.tables)
apply_with_history-Applied_example =
    apply_with_history-Applied outside failing_attempt update 5500 5000 none "obs-1"
      half_done.tables

calm-IsCalm : IsCalm calm
calm-IsCalm = record {
  others = λ q t. refl;
  faults = λ q. refl;
  before = λ t. refl;
  steps = λ s. refl;
}

redelivery_projects_example :
    ((handle_observation_received outside calm redelivered half_done).0
      ≡ projected_into (state_update outside (joined half_done.tables row) (update_of redelivered)))
    × (find "trk-1" (handle_observation_received outside calm redelivered half_done).1.tables.tracks
        ≡ some (record row { last_seen_at = 5000; updated_at = 9000 }))
    × (find "obs-1"
          (handle_observation_received outside calm redelivered half_done).1.tables.observations
        ≡ some (some 9500))
    × ((handle_observation_received outside calm redelivered half_done).1.outbox
        ≡ []
          ++ track_updated 9000 "trk-1"
              (some at_sea)
              (state_update outside (joined half_done.tables row) (update_of redelivered)).speed
              (state_update outside (joined half_done.tables row) (update_of redelivered)).heading
              5500
              5500
            ∷ [])
unfolding owner_of candidates first_sorted find
redelivery_projects_example =
    redelivery_projects outside calm redelivered row half_done calm-IsCalm refl refl refl refl refl
      refl refl refl refl refl

-- The track that the observation is linked to, which another observation began.
abbrev linked_track : Track
linked_track = record row {
  id = "trk-2";
  metadata = record row.metadata { initial_observation_id = "obs-0" };
}

abbrev shadowed : Tables
shadowed = record half_done.tables {
  tracks = ("trk-2", linked_track) ∷ half_done.tables.tracks;
  links = ("obs-1", "trk-2") ∷ [];
}

initial_shadows_link_example :
    (first : Track) × (find_by_observation none "obs-1" shadowed ≡ ok (joined shadowed first))
    × (linked_to "obs-1" first.id shadowed ≡ false)
unfolding find
initial_shadows_link_example =
    initial_shadows_link "obs-1" "trk-1" shadowed {row = row} refl refl refl
