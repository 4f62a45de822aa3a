-- ===== src/Examples/Telemetry.antt =====
-- The theorems on internal/telemetry at concrete inputs.
use Prim.Native.Nat.{◌%◌}
use c4isr_systems.Prelude.{
  ℕ, String, ◌≡◌, refl, true, false, none, some, List, [], ◌∷◌, ◌-◌, ◌≤◌, arith, trim_space, pos,
}
use c4isr_systems.Platform.Apperr.{ok, err}
use c4isr_systems.Platform.Table.{find, DbError, raw}
use c4isr_systems.Platform.Geo.{Point}
use c4isr_systems.Platform.Metrics.{Gauge, holds, observe_telemetry}
use c4isr_systems.Platform.Freshness.{live, default_policy}
use c4isr_systems.Telemetry.{CreateInput, normalize, validate}
use c4isr_systems.Telemetry.Store.{has_message, Outside, Attempt, Env, stored}
use c4isr_systems.Telemetry.Service.{Db, ingest, draft}
use c4isr_systems.Telemetry.Seen.{last_seen}
use c4isr_systems.Telemetry.Growth.{Grows, Grows-refl}
use c4isr_systems.Telemetry.Projection.{Relies, ingest_all, ingest_all-Grows}
use c4isr_systems.Telemetry.Turns.{IsCalm}
use c4isr_systems.Telemetry.Latest.{IsLatest, latest, ingest_all-IsLatest}
use c4isr_systems.Telemetry.Delivery.{Ingested, ingest-Ingested}
use c4isr_systems.Telemetry.Retry.{WriteFails, sample_of, duplicate_result, retry_lost}
use c4isr_systems.Telemetry.Monitor.{Monitor, Tick, new_monitor, entity_key, split_entity_key}
use c4isr_systems.Telemetry.Keys.{has_colon, split_entity_key-entity_key}
use c4isr_systems.Telemetry.Shown.{IsShown, reconcile_all, reconcile_all-IsShown}
use c4isr_systems.Telemetry.Silence.{IsEmptied, vanished_stay_stale, telemetry_clears_nothing}

-- A clock of microseconds, and a flat earth.
abbrev outside : Outside
outside = record { column_time = λ t. t - t % 1000; speed_between = λ a b d. d; bearing = λ a b. 0 }

abbrev calm_turn : Attempt
calm_turn = record {
  before = λ t. t;
  between = λ t. t;
  clock = 9000;
  ensure_fault = none;
  read_fault = none;
  apply_fault = none;
}

abbrev calm : Env
calm = record {
  now = 9000;
  db_now = 9000;
  new_id = "tel-1";
  asset_exists = λ id. ok true;
  create_fault = none;
  broken_reference = none;
  first = calm_turn;
  second = calm_turn;
  third = calm_turn;
}

abbrev failing_turn : Attempt
failing_turn = record calm_turn { apply_fault = some (DbError.failed "connection reset") }

abbrev failing : Env
failing = record calm { first = failing_turn }

abbrev at_sea : Point
at_sea = record { lat = 0; lng = 0 }

abbrev sample : CreateInput
sample = record {
  id = "";
  message_id = " m-1 ";
  asset_id = "ast-1";
  source_id = "";
  observed_at = 5500;
  received_at = 6000;
  position = some at_sea;
  speed = none;
  heading = none;
  health = "";
  connection_state = "";
  payload = none;
}

abbrev older : CreateInput
older = record sample { id = "tel-2"; message_id = "m-2"; observed_at = 2500 }

abbrev nothing : Db
nothing = record { tables = record { samples = []; states = [] }; outbox = [] }

-- The later sample comes in first.
abbrev calls : List (Env × CreateInput)
calls = (calm, sample) ∷ (calm, older) ∷ []

calm_turn-Relies : Relies calm_turn
calm_turn-Relies = record { before = λ t. Grows-refl t; between = λ t. Grows-refl t }

failing_turn-Relies : Relies failing_turn
failing_turn-Relies = record { before = λ t. Grows-refl t; between = λ t. Grows-refl t }

ingest_all-Grows_example :
    Grows nothing.tables
      (ingest_all outside ((failing, sample) ∷ (calm, older) ∷ []) nothing).tables
ingest_all-Grows_example =
    ingest_all-Grows outside ((failing, sample) ∷ (calm, older) ∷ []) nothing (
      (failing_turn-Relies, (calm_turn-Relies, (calm_turn-Relies, tt))),
      ((calm_turn-Relies, (calm_turn-Relies, (calm_turn-Relies, tt))), tt),
    )

calm_turn-IsCalm : IsCalm calm_turn
calm_turn-IsCalm = record {
  before = λ t. refl;
  between = λ t. refl;
  ensures = refl;
  reads = refl;
  applies = refl;
}

rounds_down : (t : ℕ) → t - t % 1000 ≤ t
rounds_down t = omega arith

nothing-IsLatest : IsLatest nothing.tables
unfolding last_seen latest find
nothing-IsLatest asset = refl

ingest_all-IsLatest_example : IsLatest (ingest_all outside calls nothing).tables
ingest_all-IsLatest_example =
    ingest_all-IsLatest outside calls nothing
      (
        (calm_turn-IsCalm, (calm_turn-IsCalm, (calm_turn-IsCalm, tt))),
        ((calm_turn-IsCalm, (calm_turn-IsCalm, (calm_turn-IsCalm, tt))), tt),
      )
      rounds_down nothing-IsLatest

ingest-Ingested_example :
    Ingested outside calm.now
      (draft calm.now (normalize calm.new_id calm.now sample))
      nothing
      (ingest outside calm sample nothing)
ingest-Ingested_example = ingest-Ingested outside calm sample nothing

write_fails : WriteFails failing_turn (DbError.failed "connection reset")
write_fails = record {
  before = λ t. refl;
  between = λ t. refl;
  ensures = refl;
  reads = refl;
  breaks = refl;
}

retry_lost_example :
    ((ingest outside failing sample nothing).0 ≡ err (raw (DbError.failed "connection reset")))
    × (ingest outside calm sample (ingest outside failing sample nothing).1
        ≡ (ok duplicate_result, (ingest outside failing sample nothing).1))
    × (find (sample_of failing sample).id (ingest outside failing sample nothing).1.tables.samples
        ≡ some (stored outside failing.db_now (sample_of failing sample)))
    × ((asset : String)
        → last_seen asset (ingest outside failing sample nothing).1.tables
          ≡ last_seen asset nothing.tables)
unfolding normalize validate last_seen has_message find
retry_lost_example =
    retry_lost outside failing sample nothing refl refl refl refl refl refl refl write_fails refl
      calm refl refl refl

abbrev tick : Tick
tick = record {
  now = 1000000000;
  asset_fault = none;
  track_fault = none;
  assets =
      record {
        asset_id = "ast-1";
        status = "available";
        connection_state = "connected";
        last_seen_at = some 900000000;
      }
      ∷ [];
  tracks = [];
}

abbrev empty_tick : Tick
empty_tick = record tick { assets = [] }

abbrev no_entity : Gauge
no_entity = record { held = []; count = pos 0 }

reconcile_all-IsShown_example :
    IsShown (reconcile_all (tick ∷ empty_tick ∷ []) (new_monitor default_policy no_entity))
reconcile_all-IsShown_example =
    reconcile_all-IsShown default_policy no_entity (tick ∷ empty_tick ∷ [])

abbrev watching : Monitor
watching = record {
  policy = default_policy;
  previous = ("asset:ast-1", live) ∷ [];
  gauge = no_entity;
  outbox = [];
}

emptied : IsEmptied empty_tick
emptied = record { no_assets = refl; no_tracks = refl }

vanished_stay_stale_example :
    holds
      (trim_space "asset:ast-1")
      (reconcile_all (empty_tick ∷ empty_tick ∷ []) watching).gauge.held
    ≡ true
unfolding find trim_space
vanished_stay_stale_example =
    vanished_stay_stale empty_tick (empty_tick ∷ []) "asset:ast-1" watching refl refl
      (emptied, (emptied, tt)) refl refl

abbrev counted : Gauge
counted = record { held = "asset:ast-1" ∷ []; count = pos 1 }

telemetry_clears_nothing_example :
    holds "asset:ast-1" (observe_telemetry "ast-1" false counted).held
    ≡ holds "asset:ast-1" counted.held
unfolding trim_space has_colon
telemetry_clears_nothing_example =
    telemetry_clears_nothing "ast-1" "asset:ast-1" false counted refl refl

split_entity_key-entity_key_example :
    split_entity_key (entity_key "track" "trk:1") ≡ ("track", "trk:1")
unfolding has_colon
split_entity_key-entity_key_example = split_entity_key-entity_key "track" "trk:1" refl
