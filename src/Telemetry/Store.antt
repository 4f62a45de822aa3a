-- ===== src/Telemetry/Store.antt =====
-- internal/telemetry/postgres_repository.go over the queries of db/queries/telemetry.sql and, for
-- the state of an asset, db/queries/assets.sql.
use c4isr_systems.Prelude.{
  ℕ, String, Bool, true, false, ◌&&◌, ◌||◌, not, Option, none, some, [], ◌∷◌, str_eq, ltb, ◌==◌,
  is_empty, contains, if◌then◌else◌,
}
use c4isr_systems.Platform.Apperr.{
  Error, Result, ok, err, bad_request_error, validation_error, not_found_error, plain, labelled,
}
pub use c4isr_systems.Platform.Geo.{Outside}
use c4isr_systems.Platform.Geo.{Float64, Point}
use c4isr_systems.Platform.Table.{Table, find, put, DbError, raw}
use c4isr_systems.Telemetry.{Sample, StateSnapshot, StateUpdate}

-- A row of asset_state. A health that is NULL is the empty text.
pub record AssetState : Type 0 where
  pub asset_id : String
  pub position : Option Point
  pub speed : Option Float64
  pub heading : Option Float64
  pub health : String
  pub connection_state : String
  pub last_seen_at : Option ℕ
  pub updated_at : ℕ

pub record Tables : Type 0 where
  pub samples : Table Sample
  pub states : Table AssetState

-- What one turn of the loop in Ingest finds: what other writers do before its read and between its
-- read and its write, the database's clock, and the failures of its queries.
pub record Attempt : Type 0 where
  pub before : Tables → Tables
  pub between : Tables → Tables
  pub clock : ℕ
  pub ensure_fault : Option DbError
  pub read_fault : Option DbError
  pub apply_fault : Option DbError

-- What one call finds outside; Ingest tries three times. An insert can find that an asset or a
-- source does not exist: the name of the constraint.
pub record Env : Type 0 where
  pub now : ℕ
  pub db_now : ℕ
  pub new_id : String
  pub asset_exists : String → Result Bool
  pub create_fault : Option DbError
  pub broken_reference : Option String
  pub first : Attempt
  pub second : Attempt
  pub third : Attempt

-- A row with this message id; NULL, the empty text, is in no index.
unfoldable pub has_message : String → Table Sample → Bool
has_message m [] = false
has_message m ((id, s) ∷ t) = (not (is_empty m) && str_eq s.message_id m) || has_message m t

-- The columns that CreateTelemetry writes.
unfoldable pub stored : Outside → ℕ → Sample → Sample
stored o db_now s = record s {
  observed_at = o.column_time s.observed_at;
  received_at = o.column_time s.received_at;
  created_at = db_now;
}

-- What became of a `Create`.
pub data Insert : Type 0 where
  duplicate : Insert
  refused : Error → Insert
  inserted : Sample → Insert

-- `Create`, on a query that fails: a unique violation is a duplicate if there is a message id.
abbrev pub insert_error : Sample → DbError → Insert
insert_error s (DbError.unique name) =
    if is_empty s.message_id then refused (plain name) else duplicate
insert_error s (DbError.foreign_key name) =
    if contains "source_id" name
    then refused (bad_request_error (labelled "unknown source: " s.source_id))
    else refused (validation_error (labelled "unknown asset: " s.asset_id))
insert_error s (DbError.failed e) = refused (plain e)

-- The insert, past ON CONFLICT (message_id).
abbrev pub insert_row : Outside → Env → Sample → Tables → Option Sample → Insert × Tables
insert_row o env s t (some old) = (insert_error s (DbError.unique "asset_telemetry_pkey"), t)
insert_row o env s t none = elim env.broken_reference [
  | some name ↦ (insert_error s (DbError.foreign_key name), t)
  | none ↦ (inserted s, record t { samples = put s.id (stored o env.db_now s) t.samples })
]

-- `Create`: a conflict on the message id inserts nothing and gives no row.
unfoldable pub create : Outside → Env → Sample → Tables → Insert × Tables
create o env s t = elim env.create_fault [
  | some e ↦ (insert_error s e, t)
  | none ↦
      if has_message s.message_id t.samples
      then (duplicate, t)
      else insert_row o env s t (find s.id t.samples)
]

-- The row that EnsureAssetState inserts.
abbrev pub unknown_state : ℕ → String → AssetState
unknown_state clock asset = record {
  asset_id = asset;
  position = none;
  speed = none;
  heading = none;
  health = "";
  connection_state = "unknown";
  last_seen_at = none;
  updated_at = clock;
}

-- EnsureAssetState
unfoldable pub ensure_state : ℕ → String → Tables → Tables
ensure_state clock asset t = elim (find asset t.states) [
  | some row ↦ t
  | none ↦ record t { states = put asset (unknown_state clock asset) t.states }
]

abbrev pub snapshot_of : AssetState → StateSnapshot
snapshot_of row = record {
  asset_id = row.asset_id;
  position = row.position;
  connection_state = row.connection_state;
  last_seen_at = row.last_seen_at;
}

-- GetAssetState
abbrev pub read_state : Option DbError → String → Tables → Result StateSnapshot
read_state (some e) asset t = err (raw e)
read_state none asset t = elim (find asset t.states) [
  | none ↦ err (not_found_error "asset state" asset)
  | some row ↦ ok (snapshot_of row)
]

-- `StateSnapshot`
unfoldable pub state_snapshot : Attempt → String → Tables → Result StateSnapshot × Tables
state_snapshot a asset t = elim a.ensure_fault [
  | some e ↦ (err (raw e), t)
  | none ↦
      let ensured = ensure_state a.clock asset t in (read_state a.read_fault asset ensured, ensured)
]

-- (expected IS NULL AND last_seen_at IS NULL) OR last_seen_at = expected
abbrev pub as_expected : Option ℕ → Option ℕ → Bool
as_expected none none = true
as_expected (some e) (some l) = e == l
as_expected _ _ = false

-- last_seen_at IS NULL OR last_seen_at < observed
abbrev pub is_newer : ℕ → Option ℕ → Bool
is_newer observed none = true
is_newer observed (some l) = ltb l observed

abbrev pub coalesce {ℓ} : {A : Type ℓ} → Option A → Option A → Option A
coalesce none old = old
coalesce (some new) old = some new

-- The values that UpsertAssetState inserts.
abbrev pub inserted_state : ℕ → ℕ → StateUpdate → AssetState
inserted_state clock observed u = record {
  asset_id = u.asset_id;
  position = u.position;
  speed = u.speed;
  heading = u.heading;
  health = u.health;
  connection_state = u.connection_state;
  last_seen_at = some observed;
  updated_at = clock;
}

-- Its DO UPDATE SET.
abbrev pub merged_state : ℕ → ℕ → StateUpdate → AssetState → AssetState
merged_state clock observed u row = record row {
  position = coalesce u.position row.position;
  speed = coalesce u.speed row.speed;
  heading = coalesce u.heading row.heading;
  health = if is_empty u.health then row.health else u.health;
  connection_state = u.connection_state;
  last_seen_at = some observed;
  updated_at = clock;
}

-- `ApplyState`. The expected time comes from the column and goes back as it is.
unfoldable pub apply_state :
    Outside → Attempt → StateUpdate → Option ℕ → Tables → Result Bool × Tables
apply_state o a u expected t =
    let observed = o.column_time u.observed_at in
    elim a.apply_fault [
      | some e ↦ (err (raw e), t)
      | none ↦ elim (find u.asset_id t.states) [
        | none ↦ (
          ok true,
          record t { states = put u.asset_id (inserted_state a.clock observed u) t.states },
        )
        | some row ↦
            if as_expected expected row.last_seen_at && is_newer observed row.last_seen_at
            then (
              ok true,
              record t { states = put u.asset_id (merged_state a.clock observed u row) t.states },
            )
            else (ok false, t)
      ]
    ]
