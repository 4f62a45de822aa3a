-- ===== src/Incidents/Moves.antt =====
-- Status changes and edits of incidents (internal/incidents/service.go).
use c4isr_systems.Prelude.{
  String, ◌≡◌, ◌≢◌, ◌↔◌, ◌⊎◌, inl, inr, refl, sym, ap, ◌∙◌, true, false, none, some, [], ◌∷◌, ◌++◌,
  arith, eq_iff, eq_refl, Option-cases, Bool-cases, is_empty,
}
use c4isr_systems.Platform.Apperr.{Error, Result, ok, err}
use c4isr_systems.Platform.Table.{find, put, find-put, update_where, update_where-eq-some}
use c4isr_systems.Incidents.{
  Status, opened, acknowledged, investigating, responding, resolved, closed, other, Incident,
  UpdateInput, can_move, valid_status, normalize_update, validate_update,
}
use c4isr_systems.Incidents.Store.{
  Env, Tables, get_incident, update_status, update_incident, same_status, moved, edited, get,
  move_row, edit_row,
}
use c4isr_systems.Incidents.Service.{
  Db, incident_updated, change_status, move_from, announce_updated, merged, edit,
}

-- The comparison of statuses decides their equality.
same_status_sound : (a b : Status) → same_status a b ≡ true → a ≡ b
unfolding same_status
same_status_sound (other s) (other t) h = ap other ((eq_iff s t).0 h)
same_status_sound opened opened h = refl
same_status_sound acknowledged acknowledged h = refl
same_status_sound investigating investigating h = refl
same_status_sound responding responding h = refl
same_status_sound resolved resolved h = refl
same_status_sound closed closed h = refl
same_status_sound _ _ h = cc

move_row_ok :
    (env : Env) (id : String) (to expected : Status) (t : Tables) {i : Incident} {t' : Tables}
    → move_row env id to expected t ≡ (ok i, t')
    → (q : Incident) × (find id t.incidents ≡ some q)
      × (q.status ≡ expected)
      × (i ≡ moved env.now to q)
      × (t' ≡ record t { incidents = put id i t.incidents })
unfolding move_row
move_row_ok env id to expected t {i} {t'} h = elim (Option-cases (env.fault update_status)) [
  | inr (e, f) ↦ absurd (ground arith)
  | inl f ↦
      elim (Option-cases
        (update_where id (λ q. same_status q.status expected) (moved env.now to) t.incidents)) [
          | inl none_fits ↦ absurd (ground arith)
          | inr ((r, rows), fits) ↦
              let (q, found, passes, eq, table) =
                update_where-eq-some id (λ q. same_status q.status expected) (moved env.now to)
                  t.incidents fits in
              let is_i : i ≡ r = ground arith in
              let is_t : t' ≡ record t { incidents = rows } = ground arith in
              (
                q,
                found,
                same_status_sound q.status expected passes,
                is_i ∙ eq,
                is_t
                    ∙ ap (λ x. record t { incidents = x })
                        (table ∙ ap (λ x. put id x t.incidents) (sym (is_i ∙ eq))),
              )
        ]
]

move_row_err :
    (env : Env) (id : String) (to expected : Status) (t : Tables) {e : Error} {t' : Tables}
    → move_row env id to expected t ≡ (err e, t')
    → t' ≡ t
unfolding move_row
move_row_err env id to expected t {e} {t'} h = ground arith

-- What a status change can come to.
abbrev pub Change : Env → String → Status → String → Db → Result Incident × Db → Type 0
Change env id to actor db (err e, after) =
    ((after.tables ≡ db.tables) ⊎ (after.tables ≡ env.others db.tables))
    × (after.outbox ≡ db.outbox)
Change env id to actor db (ok i, after) =
    (q : Incident) × (find id (env.others db.tables).incidents ≡ some q)
    × (can_move q.status to ≡ true)
    × (i ≡ moved env.now to q)
    × (after.tables
        ≡ record (env.others db.tables) { incidents = put id i (env.others db.tables).incidents })
    × (after.outbox ≡ db.outbox ++ incident_updated i.id i.status i.priority actor ∷ [])

announced-Change :
    (env : Env) (id : String) (from to : Status) (actor : String) (db : Db)
    → can_move from to ≡ true
    → Change env id to actor db
        (announce_updated actor db (move_row env id to from (env.others db.tables)))
announced-Change env id from to actor db allowed =
    go (move_row env id to from (env.others db.tables)) refl
  where
    go :
        (r : Result Incident × Tables)
        → move_row env id to from (env.others db.tables) ≡ r
        → Change env id to actor db (announce_updated actor db r)
    go (err e, t) h = (inr (move_row_err env id to from (env.others db.tables) h), refl)
    go (ok i, t) h =
        let (q, found, status, eq, table) = move_row_ok env id to from (env.others db.tables) h in
        (q, found, rw status allowed, eq, table, refl)

-- Every call of `UpdateStatus`, under any failures and any interference of other writers, has one of
-- two outcomes. It fails, writes nothing and publishes nothing. Or the row found at the time of the
-- write was in a status from which the lifecycle allows the move, this row alone is moved and stamped,
-- and exactly one incident.updated is published.
pub change_status-Change :
    (env : Env) (id : String) (to : Status) (actor : String) (db : Db)
    → Change env id to actor db (change_status env id to actor db)
unfolding change_status
change_status-Change env id to actor db = elim (Bool-cases (valid_status to)) [
  | inr invalid ↦ rw invalid (inl refl, refl)
  | inl valid ↦ rw valid (go (get env id db.tables))
]
  where
    go : (r : Result Incident) → Change env id to actor db (move_from env id to actor db r)
    go (err e) = (inl refl, refl)
    go (ok current) = elim (Bool-cases (can_move current.status to)) [
      | inr no_move ↦ rw no_move (inl refl, refl)
      | inl allowed ↦ rw allowed (announced-Change env id current.status to actor db allowed)
    ]

-- CLOSED is final, and no other valid status is: an incident that can be read refuses every valid
-- target exactly if it is CLOSED, where its status is a valid one.
pub closed_final :
    (s : Status) → valid_status s ≡ true → (s ≡ closed) ↔ ((t : Status) → can_move s t ≡ false)
unfolding can_move valid_status
closed_final opened v = (λ h. cc, λ h. cc (h closed))
closed_final acknowledged v = (λ h. cc, λ h. cc (h closed))
closed_final investigating v = (λ h. cc, λ h. cc (h closed))
closed_final responding v = (λ h. cc, λ h. cc (h closed))
closed_final resolved v = (λ h. cc, λ h. cc (h closed))
closed_final closed v = (λ h t. refl, λ h. refl)
closed_final (other s) v = cc

-- A lost update: `Update` writes back the whole metadata that it has read. If another writer retitles
-- the incident between the read and the write, and the input names no title, then the edit succeeds,
-- returns and stores the old title, and the other writer's title is gone.
pub edit_overwrites :
    (env : Env) (id actor : String) (input : UpdateInput) (db : Db) {seen now_there : Incident}
    → validate_update (normalize_update input) ≡ none
    → is_empty (normalize_update input).title ≡ true
    → env.fault get_incident ≡ none
    → env.fault update_incident ≡ none
    → find id db.tables.incidents ≡ some seen
    → seen.id ≡ id
    → find id (env.others db.tables).incidents ≡ some now_there
    → now_there.title ≢ seen.title
    → (i : Incident) × ((edit env id input actor db).0 ≡ ok i)
      × (i.title ≡ seen.title)
      × (i.title ≢ now_there.title)
      × (i.status ≡ now_there.status)
      × (find id (edit env id input actor db).1.tables.incidents ≡ some i)
unfolding edit get edit_row edited update_where
edit_overwrites env id actor input db {seen} {now_there} valid untitled g u found own there
      retitled =
    let i = edited env.now (merged (normalize_update input) seen) now_there in
    let stored : find seen.id (put seen.id i (env.others db.tables).incidents) ≡ some i =
      rw (find-put seen.id seen.id i (env.others db.tables).incidents)
        (rw (eq_refl seen.id) refl) in
    let done : edit env id input actor db ≡ (
      ok i,
      record {
        tables = record (env.others db.tables) {
          incidents = put seen.id i (env.others db.tables).incidents;
        };
        outbox = db.outbox ++ incident_updated i.id i.status i.priority actor ∷ [];
      },
    ) =
      ground arith in
    let old : i.title ≡ seen.title = ground arith in
    (i, ground arith, old, λ h. retitled (sym h ∙ old), refl, ground arith)
