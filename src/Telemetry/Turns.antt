-- ===== src/Telemetry/Turns.antt =====
-- A turn of the loop in Ingest that nothing disturbs (internal/telemetry/service.go).
use c4isr_systems.Prelude.{
  ℕ, String, ◌≡◌, ◌≤◌, refl, sym, ◌∙◌, ap, subst, Bool, true, false, Option, none, some,
  if◌then◌else◌, arith,
}
use c4isr_systems.Platform.Apperr.{Result, ok, err}
use c4isr_systems.Platform.Table.{find}
use c4isr_systems.Telemetry.{Sample, StateUpdate, StateSnapshot}
use c4isr_systems.Telemetry.Store.{
  Outside, Attempt, Tables, AssetState, ensure_state, apply_state, state_snapshot, is_newer,
  as_expected, read_state, snapshot_of, merged_state,
}
use c4isr_systems.Telemetry.Service.{
  Db, update_of, Turn, fails, behind, loses, wins, turn, after_apply, after_snapshot, seen_later,
}
use c4isr_systems.Telemetry.Seen.{
  last_seen, bump, put-last_seen, ensure-last_seen, ensure_samples, ensure-find, bump_older,
  bump_newer,
}
use c4isr_systems.Telemetry.Projection.{update_of-Sample}

-- A turn in which nothing fails and nobody else writes.
pub record IsCalm (a : Attempt) : Type 0 where
  pub before : (t : Tables) → a.before t ≡ t
  pub between : (t : Tables) → a.between t ≡ t
  pub ensures : a.ensure_fault ≡ none
  pub reads : a.read_fault ≡ none
  pub applies : a.apply_fault ≡ none

as_expected_same : (x : Option ℕ) → as_expected x x ≡ true
as_expected_same none = refl
as_expected_same (some a) = ground arith

-- What an undisturbed turn leaves: the samples, and the time of an asset as the sample bumps it.
abbrev pub Bumped : String → ℕ → Tables → Tables → Type 0
Bumped asset at t t' =
    (t'.samples ≡ t.samples) × ((id : String) → last_seen id t' ≡ bump asset at id (last_seen id t))

unmoved-Bumped :
    (asset : String) (at : ℕ) (t t' : Tables)
    → t'.samples ≡ t.samples
    → ((id : String) → last_seen id t' ≡ last_seen id t)
    → is_newer at (last_seen asset t) ≡ false
    → Bumped asset at t t'
unmoved-Bumped asset at t t' rows times h =
    (rows, λ id. times id ∙ sym (bump_older asset id at t h))

-- A write onto the row that was read.
abbrev Applied : Outside → StateUpdate → Tables → Result Bool × Tables → Type 0
Applied o u t (err e, after) = ⊥
Applied o u t (ok b, after) = Bumped u.asset_id (o.column_time u.observed_at) t after

apply_state-Applied :
    (o : Outside) (a : Attempt) (u : StateUpdate) (t : Tables) {row : AssetState}
    → a.apply_fault ≡ none
    → find u.asset_id t.states ≡ some row
    → Applied o u t (apply_state o a u row.last_seen_at t)
unfolding apply_state
apply_state-Applied o a u t {row} f e =
    go (is_newer (o.column_time u.observed_at) row.last_seen_at) refl
  where
    go :
        (b : Bool)
        → is_newer (o.column_time u.observed_at) row.last_seen_at ≡ b
        → Applied o u t (apply_state o a u row.last_seen_at t)
    go true g =
        rw (f, e, as_expected_same row.last_seen_at, g, apply_state)
          (
            refl,
            λ id.
                put-last_seen u.asset_id id
                  (merged_state a.clock (o.column_time u.observed_at) u row) t
                ∙ bump_newer u.asset_id id (o.column_time u.observed_at) t
                    (unfold last_seen in rw e g),
          )
    go false g =
        rw (f, e, as_expected_same row.last_seen_at, g, apply_state)
          (unmoved-Bumped u.asset_id (o.column_time u.observed_at) t t refl (λ id. refl)
            (unfold last_seen in rw e g))

-- A read that runs finds the row, and gives what it holds.
pub state_snapshot_runs :
    (a : Attempt) (asset : String) (t : Tables)
    → a.ensure_fault ≡ none
    → a.read_fault ≡ none
    → (row : AssetState) × (find asset (ensure_state a.clock asset t).states ≡ some row)
      × (row.last_seen_at ≡ last_seen asset t)
      × (state_snapshot a asset t ≡ (ok (snapshot_of row), ensure_state a.clock asset t))
unfolding state_snapshot
state_snapshot_runs a asset t ensures reads =
    let (row, found, seen) = ensure-find a.clock asset t in
    (row, found, seen, rw (ensures, state_snapshot, reads, read_state, found) refl)

abbrev pub Turned : String → ℕ → Tables → Turn × Db → Type 0
Turned asset at t (fails e, after) = ⊥
Turned asset at t (_, after) = Bumped asset at t after.tables

after_apply-Turned :
    (o : Outside) (now : ℕ) (s : Sample) (snapshot : StateSnapshot) (u : StateUpdate) (db : Db)
    (t : Tables) (r : Result Bool × Tables)
    → Applied o u t r
    → Turned u.asset_id (o.column_time u.observed_at) t (after_apply now s snapshot u db r)
after_apply-Turned o now s snapshot u db t (err e, after) h = elim h [ ]
after_apply-Turned o now s snapshot u db t (ok true, after) h = h
after_apply-Turned o now s snapshot u db t (ok false, after) h = h

-- A sample that is seen to be older than the state stays older in the column.
stale_is_older :
    (o : Outside) (at : ℕ) (seen : Option ℕ)
    → o.column_time at ≤ at
    → seen_later at seen ≡ true
    → is_newer (o.column_time at) seen ≡ false
stale_is_older o at (some b) truncates h = ground arith
stale_is_older o at none truncates h = cc

rebased :
    (asset : String) (at : ℕ) (t u : Tables) (r : Turn × Db)
    → u.samples ≡ t.samples
    → ((id : String) → last_seen id u ≡ last_seen id t)
    → Turned asset at u r
    → Turned asset at t r
rebased asset at t u (fails e, after) rows times h = h
rebased asset at t u (behind, after) rows times (r, l) =
    (r ∙ rows, λ id. l id ∙ ap (bump asset at id) (times id))
rebased asset at t u (loses, after) rows times (r, l) =
    (r ∙ rows, λ id. l id ∙ ap (bump asset at id) (times id))
rebased asset at t u (wins, after) rows times (r, l) =
    (r ∙ rows, λ id. l id ∙ ap (bump asset at id) (times id))

pub turn-Turned :
    (o : Outside) (now : ℕ) (s : Sample) (a : Attempt) (db : Db)
    → IsCalm a
    → o.column_time s.observed_at ≤ s.observed_at
    → Turned s.asset_id (o.column_time s.observed_at) db.tables (turn o now s a db)
unfolding turn
turn-Turned o now s a db calm truncates =
    let (row, found, seen, same) =
      state_snapshot_runs a s.asset_id db.tables calm.ensures calm.reads in
    rw (calm.before db.tables, same, after_snapshot)
      (go row found seen (seen_later s.observed_at row.last_seen_at) refl)
  where
    ensured : Tables
    ensured = ensure_state a.clock s.asset_id db.tables

    go :
        (row : AssetState)
        → find s.asset_id ensured.states ≡ some row
        → row.last_seen_at ≡ last_seen s.asset_id db.tables
        → (b : Bool) → seen_later s.observed_at row.last_seen_at ≡ b
        → Turned s.asset_id (o.column_time s.observed_at) db.tables (
            if b
            then (behind, record db { tables = ensured })
            else after_apply now s (snapshot_of row) (update_of o s (snapshot_of row)) db (
                apply_state o a
                  (update_of o s (snapshot_of row))
                  row.last_seen_at
                  (a.between ensured)))
    go row found seen true h =
        unmoved-Bumped s.asset_id (o.column_time s.observed_at) db.tables ensured
          (ensure_samples a.clock s.asset_id db.tables)
          (λ id. ensure-last_seen a.clock s.asset_id id db.tables)
          (stale_is_older o s.observed_at (last_seen s.asset_id db.tables) truncates
            (ap (seen_later s.observed_at) (sym seen) ∙ h))
    go row found seen false h =
        let u = update_of o s (snapshot_of row) in
        let (asset, at) = update_of-Sample o s (snapshot_of row) in
        rw (calm.between ensured) (
          rebased s.asset_id (o.column_time s.observed_at) db.tables ensured
            (after_apply now s (snapshot_of row) u db (apply_state o a u row.last_seen_at ensured))
            (ensure_samples a.clock s.asset_id db.tables)
            (λ id. ensure-last_seen a.clock s.asset_id id db.tables)
            (subst
              (λ k. Turned k (o.column_time s.observed_at) ensured (
                after_apply now s (snapshot_of row) u db
                  (apply_state o a u row.last_seen_at ensured)))
              asset
              (subst
                (λ k. Turned u.asset_id (o.column_time k) ensured (
                  after_apply now s (snapshot_of row) u db
                    (apply_state o a u row.last_seen_at ensured)))
                at
                (after_apply-Turned o now s (snapshot_of row) u db ensured
                  (apply_state o a u row.last_seen_at ensured)
                  (apply_state-Applied o a u ensured calm.applies
                    (ap (λ k. find k ensured.states) asset ∙ found))))))
