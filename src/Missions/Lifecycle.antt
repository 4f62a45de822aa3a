-- ===== src/Missions/Lifecycle.antt =====
-- One change of a mission's status (internal/missions/service.go).
use c4isr_systems.Prelude.{
  String, ◌≡◌, ◌⊎◌, inl, inr, refl, sym, ◌∙◌, ap, Bool, true, some, Option-cases, Bool-cases,
  eq_iff,
}
use c4isr_systems.Platform.Apperr.{Result, ok, err}
use c4isr_systems.Platform.Table.{find, put, update_where, update_where-eq-some}
use c4isr_systems.Missions.{
  Status, planned, active, completed, aborted, other, Mission, can_transition, valid_status,
}
use c4isr_systems.Missions.Store.{
  Env, Db, update_mission, recheck_mission, fetch, explain, same_status, moved, get, update_row,
}
use c4isr_systems.Missions.Service.{publish_updated, announce_moved, move_from, update_status}

same_status_eq : (s t : Status) → same_status s t ≡ true → s ≡ t
unfolding same_status
same_status_eq planned planned h = refl
same_status_eq active active h = refl
same_status_eq completed completed h = refl
same_status_eq aborted aborted h = refl
same_status_eq (other s) (other t) h = ap other ((eq_iff s t).0 h)
same_status_eq _ _ h = cc

-- A change that fails writes and publishes nothing; one that succeeds has moved the mission, as the
-- other writers left it, along the graph, and publishes that.
abbrev pub Transition : Env → String → Status → String → Db → Result Mission × Db → Type 0
Transition env id to actor db (err e, after) = (after ≡ db) ⊎ (after ≡ env.others db)
Transition env id to actor db (ok m, after) =
    (q : Mission) × (find id (env.others db).missions ≡ some q)
    × (can_transition q.status to ≡ true)
    × (m ≡ moved env.now to q)
    × (after
        ≡ publish_updated actor m
            record (env.others db) { missions = put id m (env.others db).missions })

lost_race :
    (env : Env) (id : String) (to : Status) (actor : String) (db : Db) (r : Result Mission)
    → Transition env id to actor db (announce_moved actor (explain r, env.others db))
lost_race env id to actor db (err e) = inr refl
lost_race env id to actor db (ok m) = inr refl

update_row-Transition :
    (env : Env) (id : String) (to from : Status) (actor : String) (db : Db)
    → can_transition from to ≡ true
    → Transition env id to actor db
        (announce_moved actor (update_row env id to from (env.others db)))
unfolding update_row
update_row-Transition env id to from actor db allowed =
    elim (Option-cases (env.fault update_mission)) [
      | inr (x, refused) ↦ rw (refused, update_row) (inr refl)
      | inl fine ↦
          let guard : Mission → Bool = λ m. same_status m.status from in
          let t = (env.others db).missions in
          elim (Option-cases (update_where id guard (moved env.now to) t)) [
            | inl missed ↦
                rw (fine, missed, update_row)
                  (lost_race env id to actor db (fetch env recheck_mission id (env.others db)))
            | inr ((m, after), hit) ↦
                let (q, found, same, eq, table) =
                  update_where-eq-some id guard (moved env.now to) t hit in
                rw (fine, hit, update_row)
                  (
                    q,
                    found,
                    ap (λ s. can_transition s to) (same_status_eq q.status from same) ∙ allowed,
                    eq,
                    ap (λ rows. publish_updated actor m record (env.others db) { missions = rows })
                        (table ∙ ap (λ x. put id x t) (sym eq)),
                  )
          ]
    ]

-- A change of status that fails writes and publishes nothing; one that succeeds has moved the
-- mission that the other writers left, along the graph of states, and publishes mission.updated.
pub update_status-Transition :
    (env : Env) (id : String) (to : Status) (actor : String) (db : Db)
    → Transition env id to actor db (update_status env id to actor db)
unfolding update_status
update_status-Transition env id to actor db = elim (Bool-cases (valid_status to)) [
  | inr invalid ↦ rw (invalid, update_status) (inl refl)
  | inl valid ↦ rw (valid, update_status) (go (get env id db))
]
  where
    go : (r : Result Mission) → Transition env id to actor db (move_from env id to actor db r)
    go (err e) = inl refl
    go (ok m) = elim (Bool-cases (can_transition m.status to)) [
      | inr refused ↦ rw (refused, move_from) (inl refl)
      | inl allowed ↦
          rw (allowed, move_from) (update_row-Transition env id to m.status actor db allowed)
    ]
