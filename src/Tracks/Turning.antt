-- ===== src/Tracks/Turning.antt =====
-- A turn of the loop that nothing disturbs (internal/tracks/service.go).
use c4isr_systems.Prelude.{
  ℕ, String, ◌≡◌, refl, ◌∙◌, sym, ap, true, false, ◌||◌, Option, none, some, ltb, eq_refl, arith,
  Option-cases, inl, inr,
}
use c4isr_systems.Platform.Apperr.{ok}
use c4isr_systems.Platform.Geo.{Outside}
use c4isr_systems.Platform.Table.{find, put, find-put, update_where}
use c4isr_systems.Tracks.{Track, StateUpdate, HistoryPoint, ObservationUpdate}
use c4isr_systems.Tracks.Store.{
  Tables, Step, Attempt, StateRow, with_state, joined, create_history, commit, mark_in_transaction,
  begin_transaction, apply_observation,
}
use c4isr_systems.Tracks.Writes.{
  is_none, mark, advance, advances, projected, add_history, mark_after, finish_tx,
  apply_with_history,
}
use c4isr_systems.Tracks.Correlation.{Db}
use c4isr_systems.Tracks.Service.{state_update, history_point, moves, turn, after_apply}
use c4isr_systems.Tracks.Atomic.{with_point}

mark_tracks : (clock : ℕ) (obs : String) (t : Tables) → (mark clock obs t).tracks ≡ t.tracks
unfolding mark
mark_tracks clock obs t = ground arith

mark-find :
    (clock : ℕ) (obs : String) (t : Tables) {p : Option ℕ}
    → find obs t.observations ≡ some p
    → find obs (mark clock obs t).observations ≡ some (some clock)
unfolding mark
mark-find clock obs t e =
    rw (e, mark) (rw (find-put obs obs (some clock) t.observations, eq_refl obs) refl)

with_point_tracks :
    (o : Outside) (h : Option HistoryPoint) (t : Tables) → (with_point o h t).tracks ≡ t.tracks
with_point_tracks o none t = refl
with_point_tracks o (some h) t = refl

with_point_observations :
    (o : Outside) (h : Option HistoryPoint) (t : Tables)
    → (with_point o h t).observations ≡ t.observations
with_point_observations o none t = refl
with_point_observations o (some h) t = refl

-- A transaction in which nothing fails.
apply_runs :
    (o : Outside) (a : Attempt) (u : StateUpdate) (observed expected : ℕ) (h : Option HistoryPoint)
    (obs : String) (t : Tables) {advanced : Tables}
    → ((s : Step) → a.fault s ≡ none)
    → advance a.clock u (o.column_time observed) expected t ≡ some advanced
    → add_history o h none advanced ≡ (none, with_point o h advanced)
    → apply_with_history o a u observed expected h obs t
      ≡ (ok true, mark a.clock obs (with_point o h advanced))
unfolding apply_with_history
apply_runs o a u observed expected h obs t runs won added =
    rw
      (
        apply_with_history,
        runs begin_transaction,
        runs apply_observation,
        won,
        runs create_history,
        added,
        mark_after,
        runs mark_in_transaction,
        finish_tx,
        runs commit,
      )
      refl

-- The tables after the row has advanced.
abbrev pub moved_tables : ℕ → StateUpdate → ℕ → Track → Tables → Tables
moved_tables clock u observed row t = record t {
  tracks = put u.track_id (record row { last_seen_at = observed; updated_at = clock }) t.tracks;
  states = put u.track_id (projected clock u (find u.track_id t.states)) t.states;
}

advance_runs :
    (clock : ℕ) (u : StateUpdate) (observed expected : ℕ) (row : Track) (t : Tables)
    → row.last_seen_at ≡ expected
    → find u.track_id t.tracks ≡ some row
    → (ltb row.last_seen_at observed || is_none (find u.track_id t.states)) ≡ true
    → advance clock u observed expected t ≡ some (moved_tables clock u observed row t)
unfolding advance update_where
advance_runs clock u observed expected row t seen there newer =
    let passes : advances observed expected (find u.track_id t.states) row ≡ true =
      unfold advances in ground arith in
    rw (advance, update_where, there, passes) refl

joined_id : (t : Tables) (row : Track) → (joined t row).id ≡ row.id
joined_id t row = go (find row.id t.states)
  where
    go : (s : Option StateRow) → (with_state row s).id ≡ row.id
    go none = refl
    go (some s) = refl

joined_seen : (t : Tables) (row : Track) → row.last_seen_at ≡ (joined t row).last_seen_at
joined_seen t row = go (find row.id t.states)
  where
    go : (s : Option StateRow) → row.last_seen_at ≡ (with_state row s).last_seen_at
    go none = refl
    go (some s) = refl

point_added :
    (o : Outside) (id : String) (s : StateUpdate) (u : ObservationUpdate) (t : Tables)
    → find id t.history ≡ none
    → add_history o (history_point id s u) none t ≡ (none, with_point o (history_point id s u) t)
point_added o id s u t free = elim (Option-cases u.position) [
  | inl e ↦ rw (e, history_point, add_history) refl
  | inr (p, e) ↦ rw (e, history_point, add_history, free) refl
]

-- The tables after the transaction of an undisturbed turn.
abbrev pub turned_tables : Outside → Attempt → ObservationUpdate → Track → Tables → Tables
turned_tables o a u row t =
    let s = state_update o (joined t row) u in
    mark a.clock u.observation_id (
      with_point o (history_point a.history_id s u)
        (moved_tables a.clock s (o.column_time u.observed_at) row t))

pub turn_runs :
    (o : Outside) (u : ObservationUpdate) (row : Track) (a : Attempt) (db : Db)
    → a.before db.tables ≡ db.tables
    → ((s : Step) → a.fault s ≡ none)
    → find row.id db.tables.tracks ≡ some row
    → ltb u.observed_at row.last_seen_at ≡ false
    → (ltb row.last_seen_at (o.column_time u.observed_at) || is_none (find row.id db.tables.states))
      ≡ true
    → find a.history_id db.tables.history ≡ none
    → turn o u (joined db.tables row) a db ≡ (
      moves (state_update o (joined db.tables row) u),
      record db { tables = turned_tables o a u row db.tables },
    )
unfolding turn
turn_runs o u row a db quiet runs there current newer free =
    let track = joined db.tables row in
    let s = state_update o track u in
    let id = joined_id db.tables row in
    let seen = joined_seen db.tables row in
    let h = history_point a.history_id s u in
    let moved = moved_tables a.clock s (o.column_time u.observed_at) row db.tables in
    let advanced =
      advance_runs a.clock s (o.column_time u.observed_at) track.last_seen_at row db.tables seen
        (ap (λ k. find k db.tables.tracks) id ∙ there)
        (ap
            (λ k.
              ltb row.last_seen_at (o.column_time u.observed_at)
              || is_none (find k db.tables.states))
            id
          ∙ newer) in
    let applied =
      apply_runs o a s u.observed_at track.last_seen_at h u.observation_id db.tables runs advanced
        (point_added o a.history_id s u moved free) in
    rw (turn, ap (ltb u.observed_at) (sym seen) ∙ current, quiet, applied, after_apply) refl

pub turned_row :
    (o : Outside) (clock : ℕ) (a : Attempt) (u : ObservationUpdate) (row : Track) (t : Tables)
    → find row.id (mark clock u.observation_id (turned_tables o a u row t)).tracks
      ≡ some (record row { last_seen_at = o.column_time u.observed_at; updated_at = a.clock })
turned_row o clock a u row t =
    let s = state_update o (joined t row) u in
    let h = history_point a.history_id s u in
    let moved = moved_tables a.clock s (o.column_time u.observed_at) row t in
    let new = record row { last_seen_at = o.column_time u.observed_at; updated_at = a.clock } in
    let id = joined_id t row in
    ap (find row.id) (
      mark_tracks clock u.observation_id (turned_tables o a u row t)
      ∙ mark_tracks a.clock u.observation_id (with_point o h moved)
      ∙ with_point_tracks o h moved)
    ∙ ap (λ k. find k (put (joined t row).id new t.tracks)) (sym id)
    ∙ rw (find-put (joined t row).id (joined t row).id new t.tracks, eq_refl (joined t row).id) refl

pub turned_mark :
    (o : Outside) (clock : ℕ) (a : Attempt) (u : ObservationUpdate) (row : Track) (t : Tables)
    {p : Option ℕ}
    → find u.observation_id t.observations ≡ some p
    → find u.observation_id (mark clock u.observation_id (turned_tables o a u row t)).observations
      ≡ some (some clock)
turned_mark o clock a u row t stored =
    let s = state_update o (joined t row) u in
    let h = history_point a.history_id s u in
    let moved = moved_tables a.clock s (o.column_time u.observed_at) row t in
    mark-find clock u.observation_id (turned_tables o a u row t) (
      mark-find a.clock u.observation_id (with_point o h moved)
        (ap (find u.observation_id) (with_point_observations o h moved) ∙ stored))
