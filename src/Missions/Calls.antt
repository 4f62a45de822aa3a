-- ===== src/Missions/Calls.antt =====
-- The missions over any sequence of calls (internal/missions/service.go).
use c4isr_systems.Prelude.{
  String, ◌≡◌, ◌⊎◌, inl, inr, refl, List, [], ◌∷◌, All, Option-cases, Bool-cases, trim_space, arith,
}
use c4isr_systems.Platform.Apperr.{Result, ok, err}
use c4isr_systems.Platform.Table.{Table, Rows}
use c4isr_systems.Missions.{
  Status, TaskStatus, Mission, TaskInput, CreateInput, can_transition, normalize, validate,
  valid_status, normalize_task,
}
use c4isr_systems.Missions.Store.{Env, Db, create_row, get, update_row}
use c4isr_systems.Missions.Service.{
  draft, new_task, assign_all, check_assets, after_insert, announce_moved, create, move_from,
  update_status, assign_asset, add_task, update_task_status,
}
use c4isr_systems.Missions.Times.{
  HasTimes, AllHaveTimes, create_row-AllHaveTimes, update_row-AllHaveTimes, assign_row_missions,
  create_task_missions, update_task_row_missions, assign_all_missions, create_all_missions,
}

pub after_insert_missions :
    (env : Env) (i : CreateInput) (r : Result Mission × Db)
    → (after_insert env i r).1.missions ≡ r.1.missions
after_insert_missions env i (err e, db) = refl
after_insert_missions env i (ok m, db) =
    let as_assigned = assign_all env m.id i.assets db in
    let first = assign_all_missions env m.id i.assets db in
    let rest = create_all_missions env 0 m.id i.tasks as_assigned.1 in ground arith

create-AllHaveTimes :
    (env : Env) (input : CreateInput) (db : Db)
    → AllHaveTimes db
    → AllHaveTimes (create env input db).1
unfolding create
create-AllHaveTimes env input db h =
    let i = normalize input in
    elim (Option-cases (validate i)) [
      | inr (e, invalid) ↦ rw (invalid, create) h
      | inl valid ↦ elim (Option-cases (check_assets env i.assets)) [
        | inr (e, unknown) ↦ rw (valid, unknown, create) h
        | inl known ↦
            rw (valid, known, create, after_insert_missions env i (create_row env (draft env i) db))
              (create_row-AllHaveTimes env (draft env i) db refl h)
      ]
    ]

announce_moved_missions :
    (actor : String) (r : Result Mission × Db) → (announce_moved actor r).1.missions ≡ r.1.missions
announce_moved_missions actor (err e, db) = refl
announce_moved_missions actor (ok m, db) = refl

update_status-AllHaveTimes :
    (env : Env) (id : String) (to : Status) (actor : String) (db : Db)
    → AllHaveTimes (env.others db)
    → AllHaveTimes db
    → AllHaveTimes (update_status env id to actor db).1
unfolding update_status
update_status-AllHaveTimes env id to actor db rely h = elim (Bool-cases (valid_status to)) [
  | inr invalid ↦ rw (invalid, update_status) h
  | inl valid ↦ rw (valid, update_status) (go (get env id db))
]
  where
    go : (r : Result Mission) → AllHaveTimes (move_from env id to actor db r).1
    go (err e) = h
    go (ok m) = elim (Bool-cases (can_transition m.status to)) [
      | inr refused ↦ rw (refused, move_from) h
      | inl allowed ↦
          let after = update_row env id to m.status (env.others db) in
          rw (allowed, move_from, announce_moved_missions actor after)
            (update_row-AllHaveTimes env id to m.status (env.others db) allowed rely)
    ]

assign_asset_missions :
    (env : Env) (id a actor : String) (db : Db)
    → ((assign_asset env id a actor db).1.missions ≡ db.missions)
      ⊎ ((assign_asset env id a actor db).1.missions ≡ (env.others db).missions)
unfolding assign_asset
assign_asset_missions env id a actor db =
    let kept = assign_row_missions env (trim_space id) (trim_space a) (env.others db) in
    ground arith

add_task_missions :
    (env : Env) (id : String) (i : TaskInput) (actor : String) (db : Db)
    → ((add_task env id i actor db).1.missions ≡ db.missions)
      ⊎ ((add_task env id i actor db).1.missions ≡ (env.others db).missions)
unfolding add_task
add_task_missions env id i actor db =
    let kept =
      create_task_missions env 0 (new_task env 0 (trim_space id) (normalize_task i))
        (env.others db) in
    ground arith

update_task_status_missions :
    (env : Env) (m id : String) (to : TaskStatus) (actor : String) (db : Db)
    → ((update_task_status env m id to actor db).1.missions ≡ db.missions)
      ⊎ ((update_task_status env m id to actor db).1.missions ≡ (env.others db).missions)
unfolding update_task_status
update_task_status_missions env m id to actor db =
    let kept = update_task_row_missions env (trim_space m) (trim_space id) to (env.others db) in
    ground arith

either :
    (a b : Db) (t : Table Mission)
    → AllHaveTimes a
    → AllHaveTimes b
    → (t ≡ a.missions) ⊎ (t ≡ b.missions)
    → Rows HasTimes t
either a b t h k (inl same) = rw same h
either a b t h k (inr same) = rw same k

-- The calls of the service that write.
pub data Call : Type 0 where
  creates : CreateInput → Call
  moves : (id : String) (to : Status) (actor : String) → Call
  assigns : (id asset actor : String) → Call
  adds : (id : String) (input : TaskInput) (actor : String) → Call
  turns : (mission id : String) (to : TaskStatus) (actor : String) → Call

unfoldable pub apply : Env × Call → Db → Db
apply (env, creates input) db = (create env input db).1
apply (env, moves id to actor) db = (update_status env id to actor db).1
apply (env, assigns id asset actor) db = (assign_asset env id asset actor db).1
apply (env, adds id input actor) db = (add_task env id input actor db).1
apply (env, turns mission id to actor) db = (update_task_status env mission id to actor db).1

unfoldable pub apply_all : List (Env × Call) → Db → Db
apply_all [] db = db
apply_all (c ∷ cs) db = apply_all cs (apply c db)

-- The other writers keep the times too.
abbrev pub KeepsTimes : Env × Call → Type 0
KeepsTimes c = (db : Db) → AllHaveTimes db → AllHaveTimes (c.0.others db)

apply-AllHaveTimes :
    (c : Env × Call) (db : Db) → KeepsTimes c → AllHaveTimes db → AllHaveTimes (apply c db)
unfolding apply
apply-AllHaveTimes (env, creates input) db k h = create-AllHaveTimes env input db h
apply-AllHaveTimes (env, moves id to actor) db k h =
    update_status-AllHaveTimes env id to actor db (k db h) h
apply-AllHaveTimes (env, assigns id asset actor) db k h =
    either db (env.others db) (assign_asset env id asset actor db).1.missions h (k db h)
      (assign_asset_missions env id asset actor db)
apply-AllHaveTimes (env, adds id input actor) db k h =
    either db (env.others db) (add_task env id input actor db).1.missions h (k db h)
      (add_task_missions env id input actor db)
apply-AllHaveTimes (env, turns mission id to actor) db k h =
    either db (env.others db) (update_task_status env mission id to actor db).1.missions h (k db h)
      (update_task_status_missions env mission id to actor db)

-- Over any sequence of calls, whatever fails and if the other writers do so too: every mission is
-- in one of the four states, has started if it is active or completed and not if it is planned,
-- and has ended if and only if it is completed or aborted.
pub apply_all-AllHaveTimes :
    (cs : List (Env × Call)) (db : Db)
    → All KeepsTimes cs
    → AllHaveTimes db
    → AllHaveTimes (apply_all cs db)
unfolding apply_all
apply_all-AllHaveTimes [] db ks h = h
apply_all-AllHaveTimes (c ∷ cs) db ks h =
    apply_all-AllHaveTimes cs (apply c db) ks.1 (apply-AllHaveTimes c db ks.0 h)
