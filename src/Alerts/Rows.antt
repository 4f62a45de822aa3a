-- ===== src/Alerts/Rows.antt =====
-- What the calls of internal/alerts/service.go can make of the table, one rule per call.
use c4isr_systems.Prelude.{String, ◌≡◌, refl, true, Option, none, some, Option-cases, inl, inr}
use c4isr_systems.Platform.Apperr.{Result, ok, err}
use c4isr_systems.Platform.Table.{Table, find, put, update_where, DbError}
use c4isr_systems.Alerts.{Alert}
use c4isr_systems.Alerts.Store.{
  Env, create_alert, acknowledge_alert, resolve_alert, set_alert_incident, index_conflict, inserted,
  create, insert_unless, Created, made, duplicate, failed, is_active, unresolved, acknowledged_row,
  resolved_row, linked_row, acknowledge, resolve, set_incident, answered,
}
use c4isr_systems.Alerts.Service.{Db, Event, announce, raise_unless, reply}
use c4isr_systems.Alerts.Service

module _ (P : Table Alert → Type 0) where
  pub create_rows :
      (env : Env) (a : Alert) (t : Table Alert)
      → P t
      → (find a.id t ≡ none → index_conflict a t ≡ none → P (put a.id (inserted env.now a) t))
      → P (create env a t).1
  unfolding create
  create_rows env a t same new = elim (Option-cases (env.fault create_alert)) [
    | inr (e, h) ↦ rw (h, create) same
    | inl h ↦ rw (h, create) (go (find a.id t) (index_conflict a t) refl refl)
  ]
    where
      go :
          (old : Option Alert) (index : Option String)
          → find a.id t ≡ old
          → index_conflict a t ≡ index
          → P (insert_unless env a t old index).1
      go (some old) index e f = same
      go none (some index) e f = same
      go none none e f = new e f

  announce_rows : (db : Db) (c : Created × Table Alert) → P c.1 → P (announce db c).rows
  announce_rows db (made a, t) h = h
  announce_rows db (duplicate index, t) h = h
  announce_rows db (failed e, t) h = h

  pub raise_rows :
      (env : Env) (a : Alert) (fault : Option DbError) (existing : Option Alert) (db : Db)
      → P db.rows
      → P (env.others db.rows)
      → (find a.id (env.others db.rows) ≡ none
          → index_conflict a (env.others db.rows) ≡ none
          → P (put a.id (inserted env.now a) (env.others db.rows)))
      → P (raise_unless env a fault existing db).rows
  raise_rows env a (some e) existing db same other new = same
  raise_rows env a none (some old) db same other new = same
  raise_rows env a none none db same other new =
      announce_rows db (create env a (env.others db.rows))
        (create_rows env a (env.others db.rows) other new)

  answered_rows :
      (refusal : String) (t : Table Alert) (o : Option (Alert × Table Alert))
      → P t
      → ((r : Alert) (t' : Table Alert) → o ≡ some (r, t') → P t')
      → P (answered refusal t o).1
  answered_rows refusal t none same new = same
  answered_rows refusal t (some (r, t')) same new = new r t' refl

  reply_rows :
      (event : String → Event) (db : Db) (r : Result Alert × Table Alert)
      → P r.1
      → P (reply event db r).1.rows
  reply_rows event db (err e, t) h = h
  reply_rows event db (ok a, t) h = h

  pub acknowledge_rows :
      (env : Env) (id operator : String) (db : Db)
      → P db.rows
      → ((r : Alert) (t' : Table Alert)
          → update_where id (λ a. is_active a.state) (acknowledged_row env.now operator) db.rows
            ≡ some (r, t')
          → P t')
      → P (Service.acknowledge_alert env id operator db).1.rows
  unfolding Service.acknowledge_alert acknowledge
  acknowledge_rows env id operator db same new =
      reply_rows (λ i. Event.alert_acknowledged i operator) db (acknowledge env id operator db.rows)
        (elim (Option-cases (env.fault acknowledge_alert)) [
          | inr (e, h) ↦ rw (h, acknowledge) same
          | inl h ↦
              rw (h, acknowledge)
                (answered_rows "alert is not active" db.rows
                  (update_where id (λ a. is_active a.state) (acknowledged_row env.now operator)
                    db.rows)
                  same new)
        ])

  pub resolve_rows :
      (env : Env) (id operator : String) (db : Db)
      → P db.rows
      → ((r : Alert) (t' : Table Alert)
          → update_where id (λ a. unresolved a.state) (resolved_row env.now operator) db.rows
            ≡ some (r, t')
          → P t')
      → P (Service.resolve_alert env id operator db).1.rows
  unfolding Service.resolve_alert resolve
  resolve_rows env id operator db same new =
      reply_rows (λ i. Event.alert_resolved i operator) db (resolve env id operator db.rows)
        (elim (Option-cases (env.fault resolve_alert)) [
          | inr (e, h) ↦ rw (h, resolve) same
          | inl h ↦
              rw (h, resolve)
                (answered_rows "alert is already resolved" db.rows
                  (update_where id (λ a. unresolved a.state) (resolved_row env.now operator)
                    db.rows)
                  same new)
        ])

  pub link_rows :
      (env : Env) (id incident : String) (db : Db)
      → P db.rows
      → ((r : Alert) (t' : Table Alert)
          → update_where id (λ a. true) (linked_row env.now incident) db.rows ≡ some (r, t')
          → P t')
      → P (Service.link_incident env id incident db).1.rows
  unfolding Service.link_incident set_incident
  link_rows env id incident db same new = elim (Option-cases (env.fault set_alert_incident)) [
    | inr (e, h) ↦ rw (h, set_incident) same
    | inl h ↦
        elim (Option-cases (update_where id (λ a. true) (linked_row env.now incident) db.rows)) [
          | inl none_fits ↦ rw (h, none_fits, set_incident) same
          | inr ((r, t'), fits) ↦ rw (h, fits, set_incident) (new r t' fits)
        ]
  ]
