-- ===== src/Tracks/Writes.antt =====
-- The writes of internal/tracks/postgres_repository.go to existing tracks.
use c4isr_systems.Prelude.{ℕ, String, Bool, true, false, ◌&&◌, ◌||◌, Option, none, some, ltb, ◌==◌}
use c4isr_systems.Platform.Apperr.{Error, Result, ok, err, not_found_error, plain, wrapped}
use c4isr_systems.Platform.Geo.{Outside}
use c4isr_systems.Platform.Table.{find, put, update_where, DbError, raw}
use c4isr_systems.Tracks.{closed, Track, HistoryPoint, StateUpdate}
use c4isr_systems.Tracks.Store.{
  StateRow, Tables, begin_transaction, apply_observation, create_history, mark_in_transaction,
  commit, Attempt,
}

-- AttachObservationToTrack: an observation that is not stored is not linked, and none twice.
unfoldable pub link : String → String → Tables → Bool × Tables
link obs id t = elim (find obs t.observations) [
  | none ↦ (false, t)
  | some processed ↦ elim (find obs t.links) [
    | some owner ↦ (false, t)
    | none ↦ (true, record t { links = put obs id t.links })
  ]
]

-- `AttachObservation`
unfoldable pub attach_observation_to :
    Option DbError → String → String → Tables → Result Bool × Tables
attach_observation_to (some e) obs id t = (err (raw e), t)
attach_observation_to none obs id t = (ok (link obs id t).0, (link obs id t).1)

-- MarkObservationProcessed
unfoldable pub mark : ℕ → String → Tables → Tables
mark clock obs t = elim (find obs t.observations) [
  | none ↦ t
  | some processed ↦ record t { observations = put obs (some clock) t.observations }
]

abbrev coalesce {ℓ} : {A : Type ℓ} → Option A → Option A → Option A
coalesce none old = old
coalesce (some new) old = some new

-- The upsert of track_state in ApplyTrackObservation.
abbrev pub projected : ℕ → StateUpdate → Option StateRow → StateRow
projected clock u none = record {
  position = u.position;
  speed = u.speed;
  heading = u.heading;
  updated_at = clock;
}
projected clock u (some s) = record s {
  position = coalesce u.position s.position;
  speed = coalesce u.speed s.speed;
  heading = coalesce u.heading s.heading;
  updated_at = clock;
}

abbrev pub is_none {ℓ} : {A : Type ℓ} → Option A → Bool
is_none none = true
is_none (some a) = false

-- The WHERE clause of ApplyTrackObservation.
unfoldable pub advances : ℕ → ℕ → Option StateRow → Track → Bool
advances observed expected state row =
    row.last_seen_at == expected && (ltb row.last_seen_at observed || is_none state)

-- ApplyTrackObservation: none where no row advances.
unfoldable pub advance : ℕ → StateUpdate → ℕ → ℕ → Tables → Option Tables
advance clock u observed expected t =
    let state = find u.track_id t.states in
    elim (update_where u.track_id (advances observed expected state)
      (λ row. record row { last_seen_at = observed; updated_at = clock }) t.tracks) [
        | none ↦ none
        | some (row, rows) ↦
            some (record t {
              tracks = rows;
              states = put u.track_id (projected clock u state) t.states;
            })
      ]

-- CreateTrackHistoryEntry
abbrev pub add_history :
    Outside → Option HistoryPoint → Option DbError → Tables → Option Error × Tables
add_history o none fault t = (none, t)
add_history o (some h) (some e) t = (some (raw e), t)
add_history o (some h) none t = elim (find h.id t.history) [
  | some old ↦ (some (plain "track_history_pkey"), t)
  | none ↦ (
    none,
    record t {
      history = put h.id (record h { observed_at = o.column_time h.observed_at }) t.history;
    },
  )
]

-- The end of `WithTx`: an error rolls everything back to the tables before.
abbrev pub finish_tx : Attempt → Bool → Tables → Option Error × Tables → Result Bool × Tables
finish_tx a applied before (some e, t) = (err e, before)
finish_tx a applied before (none, t) = elim (a.fault commit) [
  | some e ↦ (err (wrapped "commit transaction: " (raw e)), before)
  | none ↦ (ok applied, t)
]

abbrev pub mark_after : Attempt → String → Option Error × Tables → Option Error × Tables
mark_after a obs (some e, t) = (some e, t)
mark_after a obs (none, t) = elim (a.fault mark_in_transaction) [
  | some e ↦ (some (raw e), t)
  | none ↦ (none, mark a.clock obs t)
]

-- `ApplyObservationWithHistory`
unfoldable pub apply_with_history :
    Outside
    → Attempt
    → StateUpdate
    → ℕ
    → ℕ
    → Option HistoryPoint
    → String
    → Tables
    → Result Bool × Tables
apply_with_history o a u observed expected history obs t = elim (a.fault begin_transaction) [
  | some e ↦ (err (wrapped "begin transaction: " (raw e)), t)
  | none ↦ elim (a.fault apply_observation) [
    | some e ↦ (err (raw e), t)
    | none ↦ elim (advance a.clock u (o.column_time observed) expected t) [
      | none ↦ finish_tx a false t (none, t)
      | some advanced ↦
          finish_tx a true t
            (mark_after a obs (add_history o history (a.fault create_history) advanced))
    ]
  ]
]

-- `Close`
unfoldable pub close_row : Option DbError → ℕ → String → Tables → Result Track × Tables
close_row (some e) clock id t = (err (raw e), t)
close_row none clock id t =
    elim (update_where id (λ row. true)
      (λ row. record row { status = closed; closed_at = some clock; updated_at = clock })
      t.tracks) [
        | none ↦ (err (not_found_error "track" id), t)
        | some (row, rows) ↦ (ok row, record t { tracks = rows })
      ]
