-- ===== src/Alerts/Final.antt =====
-- A resolved alert stays closed to the operators' calls of internal/alerts/service.go.
use c4isr_systems.Prelude.{
  String, ◌≡◌, refl, false, none, some, arith, sym, ap, eq_refl, inl, inr, Option-cases,
}
use c4isr_systems.Platform.Apperr.{Error, ok, err, conflict_error, text}
use c4isr_systems.Platform.Table.{
  raw, find, find-put, update_where, update_where-eq-some, update_where_refused,
}
use c4isr_systems.Alerts.{Alert}
use c4isr_systems.Alerts.Store
use c4isr_systems.Alerts.Store.{
  Env, is_active, unresolved, acknowledged_row, resolved_row, acknowledge, resolve, answered,
}
use c4isr_systems.Alerts.Service.{Db, acknowledge_alert, resolve_alert}

-- An alert that is not unresolved refuses both calls, and nothing is written or published.
resolved_refuses :
    (env : Env) (id operator : String) (db : Db) {a : Alert}
    → find id db.rows ≡ some a
    → unresolved a.state ≡ false
    → ((e : Error) × (acknowledge_alert env id operator db ≡ (err e, db)))
      × ((e : Error) × (resolve_alert env id operator db ≡ (err e, db)))
unfolding acknowledge_alert resolve_alert acknowledge resolve
resolved_refuses env id operator db {a} found done =
    let closed : is_active a.state ≡ false = ground arith in
    let no_ack : update_where id (λ b. is_active b.state) (acknowledged_row env.now operator)
          db.rows
        ≡ none =
      update_where_refused id (λ b. is_active b.state) (acknowledged_row env.now operator) db.rows
        found closed in
    let no_res : update_where id (λ b. unresolved b.state) (resolved_row env.now operator) db.rows
        ≡ none =
      update_where_refused id (λ b. unresolved b.state) (resolved_row env.now operator) db.rows
        found done in
    (
      elim (Option-cases (env.fault Store.acknowledge_alert)) [
        | inr (e, h) ↦ rw (h, acknowledge) (raw e, refl)
        | inl h ↦ rw (h, no_ack, acknowledge) (conflict_error (text "alert is not active"), refl)
      ],
      elim (Option-cases (env.fault Store.resolve_alert)) [
        | inr (e, h) ↦ rw (h, resolve) (raw e, refl)
        | inl h ↦ rw (h, no_res, resolve) (conflict_error (text "alert is already resolved"), refl)
      ],
    )

-- What a successful resolution leaves: the row, resolved, under its id.
resolve_ok :
    (env : Env) (id operator : String) (db : Db) {a : Alert} {after : Db}
    → resolve_alert env id operator db ≡ (ok a, after)
    → (find id after.rows ≡ some a) × (unresolved a.state ≡ false) × (a.resolved_by ≡ operator)
unfolding resolve_alert resolve resolved_row
resolve_ok env id operator db {a} {after} h = elim (Option-cases (env.fault Store.resolve_alert)) [
  | inr (e, f) ↦ absurd (ground arith)
  | inl f ↦
      elim (Option-cases
        (update_where id (λ b. unresolved b.state) (resolved_row env.now operator) db.rows)) [
          | inl none_fits ↦ absurd (ground arith)
          | inr ((r, t'), fits) ↦
              let (q, found, passes, eq, table) =
                update_where-eq-some id (λ b. unresolved b.state) (resolved_row env.now operator)
                  db.rows fits in
              let is_a : a ≡ r = ground arith in
              let is_after : after.rows ≡ t' = ground arith in
              let at : find id t' ≡ some r = rw table (
                rw (find-put id id (resolved_row env.now operator q) db.rows)
                  (rw (eq_refl id) (ap some (sym eq)))) in
              rw (is_a, is_after) (at, rw eq refl, rw eq refl)
        ]
]

-- Once a resolution has succeeded, it is final: whoever then acknowledges or resolves that alert,
-- whatever the call meets, gets an error, and nothing is written or published.
pub resolved_final :
    (env later : Env) (id operator other : String) (db : Db) {a : Alert} {after : Db}
    → resolve_alert env id operator db ≡ (ok a, after)
    → (a.resolved_by ≡ operator)
      × ((e : Error) × (acknowledge_alert later id other after ≡ (err e, after)))
      × ((e : Error) × (resolve_alert later id other after ≡ (err e, after)))
resolved_final env later id operator other db {a} {after} h =
    let (found, done, by) = resolve_ok env id operator db h in
    let (no_ack, no_resolve) = resolved_refuses later id other after found done in
    (by, no_ack, no_resolve)
