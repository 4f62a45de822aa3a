-- ===== src/Tracks/Atomic.antt =====
-- The transaction that applies an observation to a track (internal/tracks/postgres_repository.go).
use c4isr_systems.Prelude.{
  ℕ, String, ◌≡◌, refl, ap, Bool, true, false, Option, none, some, Option-cases, inl, inr,
}
use c4isr_systems.Platform.Apperr.{Result, ok, err}
use c4isr_systems.Platform.Geo.{Outside}
use c4isr_systems.Platform.Table.{find, put, DbError}
use c4isr_systems.Tracks.{HistoryPoint, StateUpdate}
use c4isr_systems.Tracks.Store.{
  Tables, Attempt, begin_transaction, apply_observation, create_history, mark_in_transaction,
  commit,
}
use c4isr_systems.Tracks.Writes.{
  mark, advance, add_history, mark_after, finish_tx, apply_with_history,
}

-- The tables with the point, where there is one.
abbrev pub with_point : Outside → Option HistoryPoint → Tables → Tables
with_point o none t = t
with_point o (some h) t = record t {
  history = put h.id (record h { observed_at = o.column_time h.observed_at }) t.history;
}

-- What the transaction may answer, and leave behind.
abbrev pub Applied :
    Outside
    → Attempt
    → StateUpdate
    → ℕ
    → ℕ
    → Option HistoryPoint
    → String
    → Tables
    → Result Bool × Tables
    → Type 0
Applied o a u observed expected h obs t (err e, after) = after ≡ t
Applied o a u observed expected h obs t (ok false, after) =
    (after ≡ t) × (advance a.clock u (o.column_time observed) expected t ≡ none)
Applied o a u observed expected h obs t (ok true, after) =
    (advanced : Tables) × (advance a.clock u (o.column_time observed) expected t ≡ some advanced)
    × (after ≡ mark a.clock obs (with_point o h advanced))

-- The three writes of the transaction happen together or not at all: if any of them fails, or the
-- commit, or another update has come first, nothing has changed; otherwise the track has advanced,
-- the point is in the history and the observation is marked.
pub apply_with_history-Applied :
    (o : Outside) (a : Attempt) (u : StateUpdate) (observed expected : ℕ) (h : Option HistoryPoint)
    (obs : String) (t : Tables)
    → Applied o a u observed expected h obs t (apply_with_history o a u observed expected h obs t)
unfolding apply_with_history
apply_with_history-Applied o a u observed expected h obs t =
    elim (Option-cases (a.fault begin_transaction)) [
      | inr (e, f) ↦ rw (f, apply_with_history) refl
      | inl f ↦ elim (Option-cases (a.fault apply_observation)) [
        | inr (e, g) ↦ rw (f, g, apply_with_history) refl
        | inl g ↦ elim (Option-cases (advance a.clock u (o.column_time observed) expected t)) [
          | inl lost ↦ rw (f, g, lost, apply_with_history) (ended lost (a.fault commit) refl)
          | inr (advanced, won) ↦ rw (f, g, won, apply_with_history) (added advanced won h)
        ]
      ]
    ]
  where
    ended :
        advance a.clock u (o.column_time observed) expected t ≡ none
        → (c : Option DbError) → a.fault commit ≡ c
        → Applied o a u observed expected h obs t (finish_tx a false t (none, t))
    ended lost (some e) f = rw (f, finish_tx) refl
    ended lost none f = rw (f, finish_tx) (refl, lost)

    marked :
        (advanced x : Tables)
        → advance a.clock u (o.column_time observed) expected t ≡ some advanced
        → (p : Option HistoryPoint) → x ≡ with_point o p advanced
        → Applied o a u observed expected p obs t (finish_tx a true t (mark_after a obs (none, x)))
    marked advanced x won p eq = elim (Option-cases (a.fault mark_in_transaction)) [
      | inr (e, f) ↦ rw (f, mark_after, finish_tx) refl
      | inl f ↦ elim (Option-cases (a.fault commit)) [
        | inr (e, g) ↦ rw (f, g, mark_after, finish_tx) refl
        | inl g ↦ rw (f, g, mark_after, finish_tx) (advanced, won, ap (mark a.clock obs) eq)
      ]
    ]

    added :
        (advanced : Tables)
        → advance a.clock u (o.column_time observed) expected t ≡ some advanced
        → (p : Option HistoryPoint)
        → Applied o a u observed expected p obs t (
            finish_tx a true t
              (mark_after a obs (add_history o p (a.fault create_history) advanced)))
    added advanced won none = marked advanced advanced won none refl
    added advanced won (some p) = elim (Option-cases (a.fault create_history)) [
      | inr (e, f) ↦ rw (f, add_history, mark_after, finish_tx) refl
      | inl f ↦ elim (Option-cases (find p.id advanced.history)) [
        | inr (old, g) ↦ rw (f, add_history, g, mark_after, finish_tx) refl
        | inl g ↦
            rw (f, add_history, g)
              (marked advanced (with_point o (some p) advanced) won (some p) refl)
      ]
    ]
