-- ===== src/Telemetry/Retry.antt =====
-- The retry of a sample whose state update has failed (internal/telemetry/service.go).
use c4isr_systems.Prelude.{
  ℕ, String, ◌≡◌, refl, ◌∙◌, ap, true, false, Option, none, some, [], ◌∷◌, str_eq, arith, eq_refl,
  is_empty, Bool-cases, inl, inr,
}
use c4isr_systems.Platform.Apperr.{ok, err}
use c4isr_systems.Platform.Table.{Table, find, put, find-put, DbError, raw}
use c4isr_systems.Telemetry.{Sample, CreateInput, normalize, validate, StateUpdate}
use c4isr_systems.Telemetry.Store.{
  Outside, Attempt, Env, Tables, ensure_state, apply_state, Insert, stored, create, has_message,
  insert_row, snapshot_of,
}
use c4isr_systems.Telemetry.Service.{
  Db, IngestResult, update_of, Turn, fails, turn, after_snapshot, project, ingest, after_create,
  seen_later, draft,
}
use c4isr_systems.Telemetry.Seen.{last_seen, ensure-last_seen, ensure_samples}
use c4isr_systems.Telemetry.Turns.{state_snapshot_runs}

-- A stored message id is found.
has_message-put :
    (k : String) (s : Sample) (t : Table Sample)
    → is_empty s.message_id ≡ false
    → find k t ≡ none
    → has_message s.message_id (put k s t) ≡ true
unfolding has_message put find
has_message-put k s [] named free = ground (arith, eq_refl s.message_id)
has_message-put k s ((j, q) ∷ t) named free = elim (Bool-cases (str_eq j k)) [
  | inl same ↦ ground arith
  | inr other ↦ rw other (ground (arith, has_message-put k s t named (ground arith)))
]

-- The answer to a duplicate.
abbrev pub duplicate_result : IngestResult
duplicate_result = record { sample = none; duplicate = true; stale = false; state_updated = false }

-- A sample whose message id is stored is answered as a duplicate, and nothing happens.
duplicate_answered :
    (o : Outside) (env : Env) (input : CreateInput) (db : Db)
    → validate env.now (normalize env.new_id env.now input) ≡ none
    → env.asset_exists (normalize env.new_id env.now input).asset_id ≡ ok true
    → env.create_fault ≡ none
    → has_message (normalize env.new_id env.now input).message_id db.tables.samples ≡ true
    → ingest o env input db ≡ (ok duplicate_result, db)
unfolding ingest create
duplicate_answered o env input db valid known runs there =
    rw (valid, known, runs, there, ingest, create) refl

-- An undisturbed turn whose write fails.
pub record WriteFails (a : Attempt) (e : DbError) : Type 0 where
  pub before : (t : Tables) → a.before t ≡ t
  pub between : (t : Tables) → a.between t ≡ t
  pub ensures : a.ensure_fault ≡ none
  pub reads : a.read_fault ≡ none
  pub breaks : a.apply_fault ≡ some e

apply_fails :
    (o : Outside) (a : Attempt) (u : StateUpdate) (expected : Option ℕ) (t : Tables) {e : DbError}
    → a.apply_fault ≡ some e
    → apply_state o a u expected t ≡ (err (raw e), t)
unfolding apply_state
apply_fails o a u expected t f = rw (f, apply_state) refl

turn_fails :
    (o : Outside) (now : ℕ) (s : Sample) (a : Attempt) (db : Db) {e : DbError}
    → WriteFails a e
    → seen_later s.observed_at (last_seen s.asset_id db.tables) ≡ false
    → turn o now s a db
      ≡ (fails (raw e), record db { tables = ensure_state a.clock s.asset_id db.tables })
unfolding turn
turn_fails o now s a db {e} w current =
    let ensured = ensure_state a.clock s.asset_id db.tables in
    let (row, found, seen, same) = state_snapshot_runs a s.asset_id db.tables w.ensures w.reads in
    let u = update_of o s (snapshot_of row) in
    rw
      (
        turn,
        w.before db.tables,
        same,
        after_snapshot,
        ap (seen_later s.observed_at) seen ∙ current,
        w.between ensured,
        apply_fails o a u row.last_seen_at ensured w.breaks,
      )
      refl

-- The sample of a call.
abbrev pub sample_of : Env → CreateInput → Sample
sample_of env input = draft env.now (normalize env.new_id env.now input)

create_stores :
    (o : Outside) (env : Env) (s : Sample) (t : Tables)
    → env.create_fault ≡ none
    → env.broken_reference ≡ none
    → has_message s.message_id t.samples ≡ false
    → find s.id t.samples ≡ none
    → create o env s t
      ≡ (Insert.inserted s, record t { samples = put s.id (stored o env.db_now s) t.samples })
unfolding create
create_stores o env s t runs whole fresh free =
    rw (runs, fresh, free, whole, create, insert_row) refl

module _ (o : Outside) (env : Env) (input : CreateInput) (db : Db) {e : DbError}
    (valid : validate env.now (normalize env.new_id env.now input) ≡ none)
    (known : env.asset_exists (sample_of env input).asset_id ≡ ok true)
    (runs : env.create_fault ≡ none) (whole : env.broken_reference ≡ none)
    (named : is_empty (sample_of env input).message_id ≡ false)
    (fresh : has_message (sample_of env input).message_id db.tables.samples ≡ false)
    (free : find (sample_of env input).id db.tables.samples ≡ none)
    (write_fails : WriteFails env.first e)
    (current : seen_later
        (sample_of env input).observed_at
        (last_seen (sample_of env input).asset_id db.tables)
      ≡ false) where
  -- What such a call leaves behind.
  abbrev half_done : Db
  half_done =
      let s = sample_of env input in
      record db {
        tables =
            ensure_state env.first.clock s.asset_id
              (record db.tables { samples = put s.id (stored o env.db_now s) db.tables.samples });
      }

  ingest-half_done : ingest o env input db ≡ (err (raw e), half_done)
  unfolding ingest project
  ingest-half_done =
      let s = sample_of env input in
      let start = record db {
        tables = record db.tables { samples = put s.id (stored o env.db_now s) db.tables.samples };
      } in
      let turns =
        turn_fails o env.now s env.first start write_fails (unfold last_seen in current) in
      let stores = create_stores o env s db.tables runs whole fresh free in
      rw (ingest, valid, known, stores, after_create, project, turns)
        (ap (λ (r : Turn × Db). (err (raw e), r.1)) turns)

  -- A sample is valid and of a known asset, has a message id, is new by it and by its own id, is not
  -- older than the state of its asset, and is inserted without failure. If nobody disturbs the first
  -- turn and its state update fails, the caller gets the error, the sample stays stored and no asset's
  -- last-seen time has moved. If the caller sends the same sample again, and it is valid then, its
  -- asset is known and the insertion does not fail otherwise, it is answered as a duplicate and
  -- nothing happens.
  pub retry_lost :
      (again : Env)
      → validate again.now (normalize again.new_id again.now input) ≡ none
      → again.asset_exists (sample_of again input).asset_id ≡ ok true
      → again.create_fault ≡ none
      → ((ingest o env input db).0 ≡ err (raw e))
        × (ingest o again input (ingest o env input db).1
            ≡ (ok duplicate_result, (ingest o env input db).1))
        × (find (sample_of env input).id (ingest o env input db).1.tables.samples
            ≡ some (stored o env.db_now (sample_of env input)))
        × ((asset : String)
            → last_seen asset (ingest o env input db).1.tables ≡ last_seen asset db.tables)
  unfolding normalize stored
  retry_lost again valid_again known_again runs_again =
      let s = sample_of env input in
      let rows = put s.id (stored o env.db_now s) db.tables.samples in
      let t = record db.tables { samples = rows } in
      let same = ensure_samples env.first.clock s.asset_id t in
      rw ingest-half_done (
        refl,
        duplicate_answered o again input half_done valid_again known_again runs_again (
            ap (has_message s.message_id) same
            ∙ has_message-put s.id (stored o env.db_now s) db.tables.samples named free),
        ap (find s.id) same
            ∙ rw (find-put s.id s.id (stored o env.db_now s) db.tables.samples, eq_refl s.id) refl,
        λ asset. ensure-last_seen env.first.clock s.asset_id asset t ∙ unfold last_seen in refl,
      )
