-- ===== src/Incidents/Stamps.antt =====
-- The times of resolution and closure over any sequence of calls (internal/incidents/service.go).
use c4isr_systems.Prelude.{
  ℕ, String, ◌≡◌, ◌≢◌, inl, inr, refl, true, Option, none, some, List, [], ◌∷◌, All, Option-cases,
  trim_space, is_empty, if_both,
}
use c4isr_systems.Platform.Apperr.{Error, Result, ok, err}
use c4isr_systems.Platform.Table.{
  Table, update_where, update_where-eq-some, Rows, Rows-put, Rows-find, DbError,
}
use c4isr_systems.Incidents.{
  Status, resolved, closed, Incident, Kind, alert, CreateInput, UpdateInput, normalize_update,
  validate_update,
}
use c4isr_systems.Incidents.Store.{
  Env, Tables, has_link, moved, edited, same_status, same_kind, add_link, point_alert, attach_row,
  point_attached, edit_row, edit_written, get, update_incident,
}
use c4isr_systems.Incidents.Service.{
  Db, open_incident, change_status, edit, edit_from, attach, attach_to, announce_attached,
  announce_updated, merged,
}
use c4isr_systems.Incidents.Opening.{Opening, open_incident-Opening}
use c4isr_systems.Incidents.Moves.{Change, change_status-Change}

-- A closed incident has a time of closing, a resolved one a time of resolution.
pub record IsStamped (i : Incident) : Type 0 where
  pub closing : i.status ≡ closed → i.closed_at ≢ none
  pub resolution : i.status ≡ resolved → i.resolved_at ≢ none

moved-IsStamped : (now : ℕ) (to : Status) (i : Incident) → IsStamped i → IsStamped (moved now to i)
unfolding moved same_status
moved-IsStamped now closed i s = record { closing = λ e n. cc; resolution = λ e. cc }
moved-IsStamped now resolved i s = record { closing = λ e. cc; resolution = λ e n. cc }
moved-IsStamped now _ i s = record { closing = λ e. cc; resolution = λ e. cc }

edited-IsStamped : (now : ℕ) (new i : Incident) → IsStamped i → IsStamped (edited now new i)
unfolding edited
edited-IsStamped now new i s = record { closing = s.closing; resolution = s.resolution }

abbrev pub AllStamped : Tables → Type 0
AllStamped t = Rows IsStamped t.incidents

add_link-AllStamped :
    (k : Kind) (i x : String) (t : Tables) → AllStamped t → AllStamped (add_link k i x t)
unfolding add_link
add_link-AllStamped k i x t h = if_both AllStamped (has_link k i x t.links) h h

point_alert-AllStamped : (x i : String) (t : Tables) → AllStamped t → AllStamped (point_alert x i t)
unfolding point_alert
point_alert-AllStamped x i t h =
    elim (Option-cases (update_where x (λ j. true) (λ j. i) t.alert_incident)) [
      | inl e ↦ rw (e, point_alert) h
      | inr ((j, rows), e) ↦ rw (e, point_alert) h
    ]

attach_row-AllStamped :
    (env : Env) (k : Kind) (i x : String) (t : Tables)
    → AllStamped t
    → AllStamped (attach_row env k i x t).1
unfolding attach_row
attach_row-AllStamped env k i x t h = elim (Option-cases (env.link_fault k x)) [
  | inr (e, f) ↦ rw (f, attach_row) h
  | inl f ↦
      rw (f, attach_row)
        (if_both (λ (r : Option Error × Tables). AllStamped r.1) (same_kind k alert)
          (pointed (env.point_fault x) refl) (add_link-AllStamped k i x t h))
]
  where
    pointed :
        (f : Option DbError)
        → env.point_fault x ≡ f
        → AllStamped (point_attached env i x (add_link k i x t)).1
    pointed (some e) f = rw (f, point_attached) (add_link-AllStamped k i x t h)
    pointed none f =
        rw (f, point_attached)
          (point_alert-AllStamped x i (add_link k i x t) (add_link-AllStamped k i x t h))

edit_row-AllStamped :
    (env : Env) (new : Incident) (t : Tables) → AllStamped t → AllStamped (edit_row env new t).1
unfolding edit_row
edit_row-AllStamped env new t h = elim (Option-cases (env.fault update_incident)) [
  | inr (e, f) ↦ rw (f, edit_row) h
  | inl f ↦
      rw (f, edit_row)
        (written (update_where new.id (λ i. true) (edited env.now new) t.incidents) refl)
]
  where
    written :
        (o : Option (Incident × Table Incident))
        → update_where new.id (λ i. true) (edited env.now new) t.incidents ≡ o
        → AllStamped (edit_written new t o).1
    written none e = h
    written (some (i, rows)) e =
        let (q, found, passes, eq, table) =
          update_where-eq-some new.id (λ i. true) (edited env.now new) t.incidents e in
        rw table (
          Rows-put IsStamped new.id (edited env.now new q) t.incidents
            (edited-IsStamped env.now new q (Rows-find IsStamped new.id t.incidents h found)) h)

updated_tables :
    (actor : String) (db : Db) (r : Result Incident × Tables)
    → (announce_updated actor db r).1.tables ≡ r.1
updated_tables actor db (err e, t) = refl
updated_tables actor db (ok i, t) = refl

attached_tables :
    (i : Incident) (actor : String) (db : Db) (r : Option Error × Tables)
    → (announce_attached i actor db r).1.tables ≡ r.1
attached_tables i actor db (some e, t) = refl
attached_tables i actor db (none, t) = refl

-- The calls of the service that write.
pub data Call : Type 0 where
  opens : CreateInput → Call
  changes : (id : String) (to : Status) (actor : String) → Call
  edits : (id : String) (input : UpdateInput) (actor : String) → Call
  attaches : (kind : Kind) (incident target actor : String) → Call

unfoldable pub apply : Env × Call → Db → Db
apply (env, opens input) db = (open_incident env input db).1
apply (env, changes id to actor) db = (change_status env id to actor db).1
apply (env, edits id input actor) db = (edit env id input actor db).1
apply (env, attaches kind incident target actor) db = (attach env kind incident target actor db).1

unfoldable pub apply_all : List (Env × Call) → Db → Db
apply_all [] db = db
apply_all (c ∷ cs) db = apply_all cs (apply c db)

-- The other writers keep the times too.
abbrev pub KeepsStamps : Env × Call → Type 0
KeepsStamps c = (t : Tables) → AllStamped t → AllStamped (c.0.others t)

opened-AllStamped :
    (env : Env) (input : CreateInput) (db : Db)
    → AllStamped db.tables
    → AllStamped (open_incident env input db).1.tables
opened-AllStamped env input db h =
    go (open_incident env input db) (open_incident-Opening env input db)
  where
    go : (r : Result Incident × Db) → Opening env input db r → AllStamped r.1.tables
    go (err e, after) same = rw same h
    go (ok i, after) (status, table, related, out) = rw table (
        Rows-put IsStamped env.new_id i db.tables.incidents
          (record { closing = λ e. cc; resolution = λ e. cc }) h)

changed-AllStamped :
    (env : Env) (id : String) (to : Status) (actor : String) (db : Db)
    → AllStamped (env.others db.tables)
    → AllStamped db.tables
    → AllStamped (change_status env id to actor db).1.tables
changed-AllStamped env id to actor db rely h =
    go (change_status env id to actor db) (change_status-Change env id to actor db)
  where
    go : (r : Result Incident × Db) → Change env id to actor db r → AllStamped r.1.tables
    go (err e, after) (inl same, _) = rw same h
    go (err e, after) (inr same, _) = rw same rely
    go (ok i, after) (q, found, allowed, eq, table, out) =
        rw (table, eq)
          (Rows-put IsStamped id (moved env.now to q) (env.others db.tables).incidents
            (moved-IsStamped env.now to q
              (Rows-find IsStamped id (env.others db.tables).incidents rely found))
            rely)

edited-AllStamped :
    (env : Env) (id : String) (input : UpdateInput) (actor : String) (db : Db)
    → AllStamped (env.others db.tables)
    → AllStamped db.tables
    → AllStamped (edit env id input actor db).1.tables
unfolding edit
edited-AllStamped env id input actor db rely h =
    elim (Option-cases (validate_update (normalize_update input))) [
      | inr (e, invalid) ↦ rw (invalid, edit) h
      | inl valid ↦ rw (valid, edit) (go (get env id db.tables))
    ]
  where
    go :
        (r : Result Incident)
        → AllStamped (edit_from env (normalize_update input) actor db r).1.tables
    go (err e) = h
    go (ok current) =
        rw
          (updated_tables actor db
            (edit_row env (merged (normalize_update input) current) (env.others db.tables)))
          (edit_row-AllStamped env (merged (normalize_update input) current) (env.others db.tables)
            rely)

attached-AllStamped :
    (env : Env) (kind : Kind) (incident target actor : String) (db : Db)
    → AllStamped (env.others db.tables)
    → AllStamped db.tables
    → AllStamped (attach env kind incident target actor db).1.tables
unfolding attach
attached-AllStamped env kind incident target actor db rely h =
    if_both (λ (r : Result Incident × Db). AllStamped r.1.tables) (is_empty (trim_space incident)) h
      (if_both (λ (r : Result Incident × Db). AllStamped r.1.tables) (is_empty (trim_space target))
        h (go (get env (trim_space incident) db.tables)))
  where
    go :
        (r : Result Incident)
        → AllStamped (attach_to env kind (trim_space target) actor db r).1.tables
    go (err e) = h
    go (ok current) =
        rw
          (attached_tables current actor db
            (attach_row env kind current.id (trim_space target) (env.others db.tables)))
          (attach_row-AllStamped env kind current.id (trim_space target) (env.others db.tables)
            rely)

apply-AllStamped :
    (c : Env × Call) (db : Db)
    → KeepsStamps c
    → AllStamped db.tables
    → AllStamped (apply c db).tables
unfolding apply
apply-AllStamped (env, opens input) db rely h = opened-AllStamped env input db h
apply-AllStamped (env, changes id to actor) db rely h =
    changed-AllStamped env id to actor db (rely db.tables h) h
apply-AllStamped (env, edits id input actor) db rely h =
    edited-AllStamped env id input actor db (rely db.tables h) h
apply-AllStamped (env, attaches kind incident target actor) db rely h =
    attached-AllStamped env kind incident target actor db (rely db.tables h) h

-- Over any sequence of calls, under any failures, if the other writers keep it too, every CLOSED
-- incident has a time of closing and every RESOLVED one a time of resolution.
pub apply_all-AllStamped :
    (cs : List (Env × Call)) (db : Db)
    → All KeepsStamps cs
    → AllStamped db.tables
    → AllStamped (apply_all cs db).tables
unfolding apply_all
apply_all-AllStamped [] db rely h = h
apply_all-AllStamped (c ∷ cs) db rely h =
    apply_all-AllStamped cs (apply c db) rely.1 (apply-AllStamped c db rely.0 h)
