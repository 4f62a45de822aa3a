-- ===== src/Telemetry/Attempts.antt =====
-- The loop in Ingest when nothing disturbs it (internal/telemetry/service.go).
use c4isr_systems.Prelude.{
  ℕ, String, ◌≡◌, ◌≤◌, refl, sym, ◌∙◌, ap, inl, inr, Bool, true, false, Option, List, [], ◌∷◌,
  str_eq, Bool-cases, All,
}
use c4isr_systems.Platform.Apperr.{Result, ok, err}
use c4isr_systems.Telemetry.{Sample}
use c4isr_systems.Telemetry.Store.{Outside, Attempt, Tables}
use c4isr_systems.Telemetry.Service.{Db, Turn, fails, behind, loses, wins, turn, Flags, project}
use c4isr_systems.Telemetry.Seen.{last_seen, later_same, bump}
use c4isr_systems.Telemetry.Turns.{IsCalm, Bumped, Turned, turn-Turned}

bump_twice :
    (asset : String) (at : ℕ) (id : String) (old : Option ℕ)
    → bump asset at id (bump asset at id old) ≡ bump asset at id old
bump_twice asset at id old = elim (Bool-cases (str_eq asset id)) [
  | inl same ↦ rw same (later_same old at)
  | inr other ↦ rw other refl
]

Bumped-trans :
    (asset : String) (at : ℕ) (t u v : Tables)
    → Bumped asset at t u
    → Bumped asset at u v
    → Bumped asset at t v
Bumped-trans asset at t u v (r, h) (q, k) =
    (q ∙ r, λ id. k id ∙ ap (bump asset at id) (h id) ∙ bump_twice asset at id (last_seen id t))

abbrev pub Projected : String → ℕ → Tables → Result Flags × Db → Type 0
Projected asset at t (err e, after) = ⊥
Projected asset at t (ok flags, after) = Bumped asset at t after.tables

-- The loop, with at least one attempt or after a turn that has done it.
pub project-Projected :
    (o : Outside) (now : ℕ) (s : Sample) (attempts : List Attempt) (stale : Bool) (db : Db)
    → All IsCalm attempts
    → o.column_time s.observed_at ≤ s.observed_at
    → (attempts ≡ [] → Bumped s.asset_id (o.column_time s.observed_at) db.tables db.tables)
    → Projected s.asset_id
        (o.column_time s.observed_at)
        db.tables
        (project o now s attempts stale db)
unfolding project
project-Projected o now s [] stale db calm truncates done = done refl
project-Projected o now s (a ∷ attempts) stale db calm truncates done =
    go (turn o now s a db).0 (turn-Turned o now s a db calm.0 truncates)
      (λ d. project-Projected o now s attempts true (turn o now s a db).1 calm.1 truncates (λ e. d))
  where
    next : Db
    next = (turn o now s a db).1

    again :
        (r : Result Flags × Db)
        → Bumped s.asset_id (o.column_time s.observed_at) db.tables next.tables
        → Projected s.asset_id (o.column_time s.observed_at) next.tables r
        → Projected s.asset_id (o.column_time s.observed_at) db.tables r
    again (err e, after) h k = k
    again (ok flags, after) h k =
        Bumped-trans s.asset_id (o.column_time s.observed_at) db.tables next.tables after.tables h k

    settled :
        Bumped s.asset_id (o.column_time s.observed_at) db.tables next.tables
        → Bumped s.asset_id (o.column_time s.observed_at) next.tables next.tables
    settled (r, h) = (
      refl,
      λ id.
          h id
          ∙ sym (
              ap (bump s.asset_id (o.column_time s.observed_at) id) (h id)
              ∙ bump_twice s.asset_id (o.column_time s.observed_at) id (last_seen id db.tables)),
    )

    go :
        (x : Turn)
        → Turned s.asset_id (o.column_time s.observed_at) db.tables (x, next)
        → (Bumped s.asset_id (o.column_time s.observed_at) next.tables next.tables
            → Projected s.asset_id
                (o.column_time s.observed_at)
                next.tables
                (project o now s attempts true next))
        → Projected s.asset_id
            (o.column_time s.observed_at)
            db.tables
            (elim x as (λ y. Result Flags × Db) [
              | fails e ↦ (err e, next)
              | behind ↦ (ok (record { stale = true; state_updated = false }), next)
              | loses ↦ project o now s attempts true next
              | wins ↦ (ok (record { stale = false; state_updated = true }), next)
            ])
    go (fails e) h rest = h
    go behind h rest = h
    go wins h rest = h
    go loses h rest = again (project o now s attempts true next) h (rest (settled h))
