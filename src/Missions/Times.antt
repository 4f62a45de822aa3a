-- ===== src/Missions/Times.antt =====
-- The times of a mission over any sequence of calls (internal/missions/service.go).
use c4isr_systems.Prelude.{
  ℕ, suc, String, ◌≡◌, ◌≢◌, inl, inr, refl, Bool, true, Option, none, some, List, [], ◌∷◌,
  Option-cases, trim_space, arith,
}
use c4isr_systems.Platform.Table.{
  find, update_where, update_where-eq-some, Rows, Rows-put, Rows-find,
}
use c4isr_systems.Missions.{
  Status, planned, active, completed, aborted, other, TaskStatus, Mission, Task, TaskInput,
  can_transition,
}
use c4isr_systems.Missions.Store.{
  Env, Db, create_mission, update_mission, same_status, started, ended, moved, create_row,
  update_row, assign_row, create_task, update_task_row,
}
use c4isr_systems.Missions.Service.{new_task, assign_all, create_all}

-- What the times of a mission are in each state: it has started if it is active or completed and
-- not if it is planned, it has ended if it is completed or aborted and not otherwise, and no state
-- is out of the four.
abbrev Times : Status → Option ℕ → Option ℕ → Type 0
Times planned started ended = (started ≡ none) × (ended ≡ none)
Times active started ended = (started ≢ none) × (ended ≡ none)
Times completed started ended = (started ≢ none) × (ended ≢ none)
Times aborted started ended = ended ≢ none
Times (other s) started ended = ⊥

pub record HasTimes (m : Mission) : Type 0 where
  pub times : Times m.status m.started_at m.ended_at

abbrev pub AllHaveTimes : Db → Type 0
AllHaveTimes db = Rows HasTimes db.missions

later_instants :
    (now : ℕ) (from to at : Status) (starting ending : Option ℕ)
    → can_transition from to ≡ true
    → same_status at from ≡ true
    → Times at starting ending
    → Times to (started now to starting) (ended now to ending)
unfolding can_transition same_status
later_instants now planned active planned none ending a s h = (λ e. cc, h.1)
later_instants now planned active planned (some x) ending a s h = (λ e. cc, h.1)
later_instants now planned aborted planned starting ending a s h = λ e. cc
later_instants now active completed active starting ending a s h = (h.0, λ e. cc)
later_instants now active aborted active starting ending a s h = λ e. cc
later_instants now _ _ _ starting ending a s h = cc

moved-HasTimes :
    (now : ℕ) (from to : Status) (m : Mission)
    → can_transition from to ≡ true
    → same_status m.status from ≡ true
    → HasTimes m
    → HasTimes (moved now to m)
unfolding moved
moved-HasTimes now from to m allowed same h = record {
  times = later_instants now from to m.status m.started_at m.ended_at allowed same h.times;
}

pub create_row-AllHaveTimes :
    (env : Env) (m : Mission) (db : Db)
    → m.status ≡ planned
    → AllHaveTimes db
    → AllHaveTimes (create_row env m db).1
unfolding create_row
create_row-AllHaveTimes env m db e h = elim (Option-cases (env.fault create_mission)) [
  | inr (x, refused) ↦ rw (refused, create_row) h
  | inl fine ↦ elim (Option-cases (find m.id db.missions)) [
    | inr (old, taken) ↦ rw (fine, taken, create_row) h
    | inl free ↦
        rw (fine, free, create_row)
          (Rows-put HasTimes m.id
            record m {
              created_at = env.now;
              updated_at = env.now;
              started_at = none;
              ended_at = none;
            }
            db.missions (record { times = rw (e) (refl, refl) }) h)
  ]
]

pub update_row-AllHaveTimes :
    (env : Env) (id : String) (to from : Status) (db : Db)
    → can_transition from to ≡ true
    → AllHaveTimes db
    → AllHaveTimes (update_row env id to from db).1
unfolding update_row
update_row-AllHaveTimes env id to from db allowed h =
    elim (Option-cases (env.fault update_mission)) [
      | inr (x, refused) ↦ rw (refused, update_row) h
      | inl fine ↦
          let guard : Mission → Bool = λ m. same_status m.status from in
          elim (Option-cases (update_where id guard (moved env.now to) db.missions)) [
            | inl missed ↦ rw (fine, missed, update_row) h
            | inr ((m, t), hit) ↦
                let (q, found, same, eq, table) =
                  update_where-eq-some id guard (moved env.now to) db.missions hit in
                rw (fine, hit, update_row, table)
                  (Rows-put HasTimes id (moved env.now to q) db.missions
                    (moved-HasTimes env.now from to q allowed same
                      (Rows-find HasTimes id db.missions h found))
                    h)
          ]
    ]

-- The other writes leave the missions as they are.
pub assign_row_missions :
    (env : Env) (m a : String) (db : Db) → (assign_row env m a db).1.missions ≡ db.missions
unfolding assign_row
assign_row_missions env m a db = ground arith

pub create_task_missions :
    (env : Env) (n : ℕ) (task : Task) (db : Db)
    → (create_task env n task db).1.missions ≡ db.missions
unfolding create_task
create_task_missions env n task db = ground arith

pub update_task_row_missions :
    (env : Env) (m id : String) (to : TaskStatus) (db : Db)
    → (update_task_row env m id to db).1.missions ≡ db.missions
unfolding update_task_row
update_task_row_missions env m id to db = ground arith

pub assign_all_missions :
    (env : Env) (m : String) (xs : List String) (db : Db)
    → (assign_all env m xs db).1.missions ≡ db.missions
unfolding assign_all
assign_all_missions env m [] db = refl
assign_all_missions env m (x ∷ xs) db =
    let first = assign_row_missions env m (trim_space x) db in
    let rest = assign_all_missions env m xs (assign_row env m (trim_space x) db).1 in ground arith

pub create_all_missions :
    (env : Env) (n : ℕ) (m : String) (is : List TaskInput) (db : Db)
    → (create_all env n m is db).1.missions ≡ db.missions
unfolding create_all
create_all_missions env n m [] db = refl
create_all_missions env n m (i ∷ is) db =
    let step = create_task env n (new_task env n m i) db in
    let first = create_task_missions env n (new_task env n m i) db in
    let rest = create_all_missions env (suc n) m is step.1 in ground arith
