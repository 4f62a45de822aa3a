-- ===== src/Telemetry/Service.antt =====
-- internal/telemetry/service.go: the ingestion of telemetry.
use c4isr_systems.Prelude.{
  ℕ, String, Bool, true, false, Option, none, some, List, [], ◌∷◌, ◌++◌, ltb, str_eq, is_empty,
  if◌then◌else◌, pos, negsuc, ℤ, sub_time, zero, suc,
}
use c4isr_systems.Platform.Apperr.{Error, Result, ok, err, validation_error, labelled}
use c4isr_systems.Platform.Geo.{Float64, Point}
use c4isr_systems.Telemetry.{Sample, CreateInput, normalize, validate, StateSnapshot, StateUpdate}
use c4isr_systems.Telemetry.Store.{
  Outside, Attempt, Env, Tables, Insert, create, state_snapshot, apply_state, coalesce,
}

-- events.AssetPositionUpdated, events.AssetConnectionChanged and events.TelemetryReceived
pub data Event : Type 0 where
  position_updated :
      (at : ℕ) (asset_id : String) (position : Point) (speed heading : Option Float64)
      (observed_at : ℕ)
      → Event
  connection_changed : (at : ℕ) (asset_id connection_state health : String) → Event
  telemetry_received :
      (at : ℕ) (telemetry_id asset_id source_id : String) (observed_at : ℕ) (stale duplicate : Bool)
      → Event

pub record Db : Type 0 where
  pub tables : Tables
  pub outbox : List Event

-- The result; a duplicate has Go's zero sample, here none.
pub record IngestResult : Type 0 where
  pub sample : Option Sample
  pub duplicate : Bool
  pub stale : Bool
  pub state_updated : Bool

-- The sample that `Ingest` hands to the repository.
abbrev pub draft : ℕ → CreateInput → Sample
draft now i = record {
  id = i.id;
  message_id = i.message_id;
  asset_id = i.asset_id;
  source_id = i.source_id;
  observed_at = i.observed_at;
  received_at = i.received_at;
  position = i.position;
  speed = i.speed;
  heading = i.heading;
  health = i.health;
  connection_state = i.connection_state;
  payload = elim i.payload [ none ↦ "{}" | some p ↦ p ];
  created_at = now;
}

abbrev motion_over : Outside → Point → Point → ℤ → StateUpdate → StateUpdate
motion_over o here there (negsuc d) u = u
motion_over o here there (pos zero) u = u
motion_over o here there (pos (suc d)) u = record u {
  speed = coalesce u.speed (some (o.speed_between here there (suc d)));
  heading = coalesce u.heading (some (o.bearing here there));
}

abbrev motion_from :
    Outside → Sample → StateUpdate → Option Point → Option Point → Option ℕ → StateUpdate
motion_from o s u (some there) (some here) (some seen) =
    motion_over o here there (sub_time s.observed_at seen) u
motion_from o s u _ _ _ = u

-- `deriveKinematics`; with both values given it changes nothing either way.
unfoldable pub derive_kinematics : Outside → StateUpdate → Sample → StateSnapshot → StateUpdate
derive_kinematics o u s snapshot =
    motion_from o s u s.position snapshot.position snapshot.last_seen_at

-- The update of one turn of the loop.
unfoldable pub update_of : Outside → Sample → StateSnapshot → StateUpdate
update_of o s snapshot =
    let u =
      derive_kinematics o
        (record {
          asset_id = s.asset_id;
          position = s.position;
          speed = s.speed;
          heading = s.heading;
          health = s.health;
          connection_state = s.connection_state;
          observed_at = s.observed_at;
        })
        s snapshot in
    record u {
      connection_state = if is_empty u.connection_state then "connected" else u.connection_state;
    }

-- `created.ObservedAt.Before(*snapshot.LastSeenAt)`
abbrev pub seen_later : ℕ → Option ℕ → Bool
seen_later observed none = false
seen_later observed (some seen) = ltb observed seen

abbrev pub position_events : ℕ → Sample → StateUpdate → List Event
position_events now s u = elim s.position [
  | none ↦ []
  | some p ↦ position_updated now s.asset_id p u.speed u.heading s.observed_at ∷ []
]

abbrev pub connection_events : ℕ → Sample → StateSnapshot → StateUpdate → List Event
connection_events now s snapshot u =
    if str_eq snapshot.connection_state u.connection_state
    then []
    else connection_changed now s.asset_id u.connection_state u.health ∷ []

-- How one turn of the loop ends: by an error, by a break for a stale sample, by a continue after a
-- lost compare-and-set, or by a break after a successful one.
pub data Turn : Type 0 where
  fails : Error → Turn
  behind loses wins : Turn

abbrev pub after_apply :
    ℕ → Sample → StateSnapshot → StateUpdate → Db → Result Bool × Tables → Turn × Db
after_apply now s snapshot u db (err e, t) = (fails e, record db { tables = t })
after_apply now s snapshot u db (ok false, t) = (loses, record db { tables = t })
after_apply now s snapshot u db (ok true, t) = (
  wins,
  record db {
    tables = t;
    outbox = db.outbox ++ (position_events now s u ++ connection_events now s snapshot u);
  },
)

abbrev pub after_snapshot :
    Outside → ℕ → Sample → Attempt → Db → Result StateSnapshot × Tables → Turn × Db
after_snapshot o now s a db (err e, t) = (fails e, record db { tables = t })
after_snapshot o now s a db (ok snapshot, t) =
    let u = update_of o s snapshot in
    if seen_later s.observed_at snapshot.last_seen_at
    then (behind, record db { tables = t })
    else after_apply now s snapshot u db (apply_state o a u snapshot.last_seen_at (a.between t))

-- One turn of the loop.
unfoldable pub turn : Outside → ℕ → Sample → Attempt → Db → Turn × Db
turn o now s a db = after_snapshot o now s a db (state_snapshot a s.asset_id (a.before db.tables))

-- What the loop leaves in the result: `Stale` and `StateUpdated`.
pub record Flags : Type 0 where
  pub stale : Bool
  pub state_updated : Bool

-- The loop over the attempts that are left.
unfoldable pub project : Outside → ℕ → Sample → List Attempt → Bool → Db → Result Flags × Db
project o now s [] stale db = (ok (record { stale = stale; state_updated = false }), db)
project o now s (a ∷ as_) stale db =
    let t = turn o now s a db in
    elim t.0 [
      | fails e ↦ (err e, t.1)
      | behind ↦ (ok (record { stale = true; state_updated = false }), t.1)
      | loses ↦ project o now s as_ true t.1
      | wins ↦ (ok (record { stale = false; state_updated = true }), t.1)
    ]

abbrev pub announce : ℕ → Sample → Result Flags × Db → Result IngestResult × Db
announce now s (err e, db) = (err e, db)
announce now s (ok flags, db) = (
  ok (record {
    sample = some s;
    duplicate = false;
    stale = flags.stale;
    state_updated = flags.state_updated;
  }),
  record db {
    outbox =
        db.outbox
        ++ telemetry_received now s.id s.asset_id s.source_id s.observed_at flags.stale false ∷ [];
  },
)

abbrev pub three_times : Env → List Attempt
three_times env = env.first ∷ env.second ∷ env.third ∷ []

abbrev pub after_create : Outside → Env → Db → Insert × Tables → Result IngestResult × Db
after_create o env db (Insert.duplicate, t) = (
  ok (record { sample = none; duplicate = true; stale = false; state_updated = false }),
  record db { tables = t },
)
after_create o env db (Insert.refused e, t) = (err e, record db { tables = t })
after_create o env db (Insert.inserted s, t) =
    announce env.now s (project o env.now s (three_times env) false (record db { tables = t }))

-- `Ingest`
unfoldable pub ingest : Outside → Env → CreateInput → Db → Result IngestResult × Db
ingest o env raw_input db =
    let i = normalize env.new_id env.now raw_input in
    elim (validate env.now i) [
      | some e ↦ (err e, db)
      | none ↦ elim (env.asset_exists i.asset_id) [
        | err e ↦ (err e, db)
        | ok false ↦ (err (validation_error (labelled "unknown asset: " i.asset_id)), db)
        | ok true ↦ after_create o env db (create o env (draft env.now i) db.tables)
      ]
    ]
