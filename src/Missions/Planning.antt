-- ===== src/Missions/Planning.antt =====
-- What `Create` leaves behind (internal/missions/service.go).
use c4isr_systems.Prelude.{
  ℕ, suc, String, ◌≡◌, inl, inr, refl, sym, ◌∙◌, ap, subst, true, none, some, List, [], ◌∷◌, ◌++◌,
  All, Option-cases, str_eq, eq_refl, trim_space, if-true, arith,
}
use c4isr_systems.Platform.Apperr.{Error, Result, ok, err}
use c4isr_systems.Platform.Table.{find, put, find-put}
use c4isr_systems.Missions.{Mission, TaskInput, CreateInput, normalize, validate}
use c4isr_systems.Missions.Store.{
  Env, Db, mission_created, create_mission, assign_to_mission, create_row, get, assign_row,
  create_task, is_assigned, with_asset,
}
use c4isr_systems.Missions.Service.{
  publish, draft, new_task, assign_all, create_all, check_assets, after_insert, create,
}
use c4isr_systems.Missions.Times.{assign_all_missions, create_all_missions}
use c4isr_systems.Missions.Calls.{after_insert_missions}

assign_all_outbox :
    (env : Env) (m : String) (xs : List String) (db : Db)
    → (assign_all env m xs db).1.outbox ≡ db.outbox
unfolding assign_all assign_row
assign_all_outbox env m [] db = refl
assign_all_outbox env m (x ∷ xs) db =
    let rest = assign_all_outbox env m xs (assign_row env m (trim_space x) db).1 in ground arith

create_all_outbox :
    (env : Env) (n : ℕ) (m : String) (is : List TaskInput) (db : Db)
    → (create_all env n m is db).1.outbox ≡ db.outbox
unfolding create_all create_task
create_all_outbox env n m [] db = refl
create_all_outbox env n m (i ∷ is) db =
    let step = create_task env n (new_task env n m i) db in
    let rest = create_all_outbox env (suc n) m is step.1 in ground arith

-- The asset is assigned, or was before.
with_asset-is_assigned :
    (m a : String) (rows : List (String × String)) → is_assigned m a (with_asset m a rows) ≡ true
unfolding is_assigned
with_asset-is_assigned m a rows = let own = eq_refl m in let this = eq_refl a in ground arith

-- No assignment is lost.
abbrev IsKept : String → List (String × String) → List (String × String) → Type 0
IsKept m before after = (b : String) → is_assigned m b before ≡ true → is_assigned m b after ≡ true

with_asset-IsKept :
    (m a : String) (rows : List (String × String)) → IsKept m rows (with_asset m a rows)
unfolding is_assigned
with_asset-IsKept m a rows b h = ground arith

assign_all-IsKept :
    (env : Env) (m : String) (xs : List String) (db : Db)
    → IsKept m db.assigned (assign_all env m xs db).1.assigned
unfolding assign_all assign_row
assign_all-IsKept env m [] db b h = h
assign_all-IsKept env m (x ∷ xs) db b h =
    let this = with_asset-IsKept m (trim_space x) db.assigned b h in
    let step = assign_row env m (trim_space x) db in
    let rest = assign_all-IsKept env m xs step.1 b in ground arith

abbrev pub IsAssigned : Db → String → String → Type 0
IsAssigned db m a = is_assigned m (trim_space a) db.assigned ≡ true

assign_all-All :
    (env : Env) (m : String) (xs : List String) (db : Db)
    → (assign_all env m xs db).0 ≡ none
    → All (IsAssigned (assign_all env m xs db).1 m) xs
unfolding assign_all assign_row
assign_all-All env m [] db e = tt
assign_all-All env m (x ∷ xs) db e =
    elim (Option-cases (env.fault (assign_to_mission (trim_space x)))) [
      | inr (broken, failed) ↦ ground arith
      | inl fine ↦
          let next = record db { assigned = with_asset m (trim_space x) db.assigned } in
          let done : (assign_all env m xs next).0 ≡ none = ground arith in
          let step : assign_all env m (x ∷ xs) db ≡ assign_all env m xs next = ground arith in
          subst (λ r. IsAssigned r.1 m x × All (IsAssigned r.1 m) xs) (sym step)
            (
              assign_all-IsKept env m xs next (trim_space x)
                  (with_asset-is_assigned m (trim_space x) db.assigned),
              assign_all-All env m xs next done,
            )
    ]

create_all_assigned :
    (env : Env) (n : ℕ) (m : String) (is : List TaskInput) (db : Db)
    → (create_all env n m is db).1.assigned ≡ db.assigned
unfolding create_all create_task
create_all_assigned env n m [] db = refl
create_all_assigned env n m (i ∷ is) db =
    let step = create_task env n (new_task env n m i) db in
    let rest = create_all_assigned env (suc n) m is step.1 in ground arith

-- The row that `Create` inserts.
abbrev pub planned_row : Env → CreateInput → Mission
planned_row env i = record (draft env i) { created_at = env.now; updated_at = env.now }

abbrev planned_db : Env → CreateInput → Db → Db
planned_db env i db = record db { missions = put env.new_id (planned_row env i) db.missions }

-- Past the checks and the insertion, the rest of `Create` is what comes after it.
create_reached :
    (env : Env) (input : CreateInput) (db : Db)
    → validate (normalize input) ≡ none
    → check_assets env (normalize input).assets ≡ none
    → env.fault create_mission ≡ none
    → find env.new_id db.missions ≡ none
    → create env input db
      ≡ after_insert env
          (normalize input)
          (ok (planned_row env (normalize input)), planned_db env (normalize input) db)
unfolding create create_row
create_reached env input db valid known fine free =
    rw (valid, known, create, fine, free, create_row) refl

after_insert_failed :
    (env : Env) (i : CreateInput) (r : Result Mission × Db) {e : Error}
    → (after_insert env i r).0 ≡ err e
    → (after_insert env i r).1.outbox ≡ r.1.outbox
after_insert_failed env i (err x, db) h = refl
after_insert_failed env i (ok m, db) h =
    let out = assign_all_outbox env m.id i.assets db in
    let next = create_all_outbox env 0 m.id i.tasks (assign_all env m.id i.assets db).1 in
    ground arith

-- If the input is valid, its assets are known, the id is new and the insertion does not fail, but
-- the call fails at an asset, a task or the reading back, then the planned mission is stored
-- although the caller gets the error, and nothing is published.
pub create_half_done :
    (env : Env) (input : CreateInput) (db : Db) {e : Error}
    → validate (normalize input) ≡ none
    → check_assets env (normalize input).assets ≡ none
    → env.fault create_mission ≡ none
    → find env.new_id db.missions ≡ none
    → (create env input db).0 ≡ err e
    → (find env.new_id (create env input db).1.missions ≡ some (planned_row env (normalize input)))
      × ((create env input db).1.outbox ≡ db.outbox)
create_half_done env input db {e} valid known fine free failed =
    let i = normalize input in
    let row = planned_row env i in
    let start : Result Mission × Db = (ok row, planned_db env i db) in
    let reached = create_reached env input db valid known fine free in
    (
      ap (λ r. find env.new_id r.1.missions) reached
          ∙ ap (find env.new_id) (after_insert_missions env i start)
          ∙ find-put env.new_id env.new_id row db.missions
          ∙ if-true (str_eq env.new_id env.new_id) (find env.new_id db.missions)
              (eq_refl env.new_id),
      ap (λ r. r.1.outbox) reached
          ∙ after_insert_failed env i start {e = e} (sym (ap (λ r. r.0) reached) ∙ failed),
    )

-- What a creation that succeeds has gone through.
record Passed (env : Env) (i : CreateInput) (m : Mission) (db : Db) : Type 0 where
  assets_done : (assign_all env env.new_id i.assets db).0 ≡ none
  tasks_done :
      (create_all env 0 env.new_id i.tasks (assign_all env env.new_id i.assets db).1).0 ≡ none
  read :
      get env env.new_id
        (create_all env 0 env.new_id i.tasks (assign_all env env.new_id i.assets db).1).1
      ≡ ok m
  told :
      (after_insert env i (ok (planned_row env i), db)).1
      ≡ publish
          (mission_created m.id m.name m.status i.actor)
          (create_all env 0 env.new_id i.tasks (assign_all env env.new_id i.assets db).1).1

after_insert-Passed :
    (env : Env) (i : CreateInput) (m : Mission) (db : Db)
    → (after_insert env i (ok (planned_row env i), db)).0 ≡ ok m
    → Passed env i m db
after_insert-Passed env i m db e = record {
  assets_done = ground arith;
  tasks_done = ground arith;
  read = ground arith;
  told = ground arith;
}

get-find :
    (env : Env) (id : String) (db : Db) {m : Mission}
    → get env id db ≡ ok m
    → find id db.missions ≡ some m
unfolding get
get-find env id db e = ground arith

-- A creation that succeeds has passed the checks, and its id was new.
create_entered :
    (env : Env) (input : CreateInput) (db : Db) {m : Mission}
    → (create env input db).0 ≡ ok m
    → (validate (normalize input) ≡ none)
      × (check_assets env (normalize input).assets ≡ none)
      × (env.fault create_mission ≡ none)
      × (find env.new_id db.missions ≡ none)
unfolding create create_row
create_entered env input db {m} e = (ground arith, ground arith, ground arith, ground arith)

-- If the call succeeds, the mission that it returns is the planned one, is stored under the new
-- id, has every asset of the input assigned, and is announced by the one event that is published.
pub create_done :
    (env : Env) (input : CreateInput) (db : Db) {m : Mission}
    → (create env input db).0 ≡ ok m
    → (m ≡ planned_row env (normalize input))
      × (find env.new_id (create env input db).1.missions ≡ some m)
      × All (IsAssigned (create env input db).1 env.new_id) (normalize input).assets
      × ((create env input db).1.outbox
          ≡ db.outbox ++ mission_created m.id m.name m.status (normalize input).actor ∷ [])
create_done env input db {m} e =
    let i = normalize input in
    let id = env.new_id in
    let row = planned_row env i in
    let (valid, known, fine, free) = create_entered env input db e in
    let start = planned_db env i db in
    let as_assigned = (assign_all env id i.assets start).1 in
    let last = (create_all env 0 id i.tasks as_assigned).1 in
    let reached = create_reached env input db valid known fine free in
    let p = after_insert-Passed env i m start (sym (ap (λ r. r.0) reached) ∙ e) in
    let whole = ap (λ r. r.1) reached ∙ p.told in
    let read = get-find env id last p.read in
    let stored : find id last.missions ≡ some row =
      ap (find id) (
        create_all_missions env 0 id i.tasks as_assigned
        ∙ assign_all_missions env id i.assets start)
      ∙ find-put id id row db.missions
      ∙ if-true (str_eq id id) (find id db.missions) (eq_refl id) in
    let event = mission_created m.id m.name m.status i.actor in
    (
      some_is (sym read ∙ stored),
      ap (λ d. find id d.missions) whole ∙ read,
      subst (λ d. All (IsAssigned d id) i.assets) (sym whole)
          (subst (λ rows. All (λ a. is_assigned id (trim_space a) rows ≡ true) i.assets)
            (sym (create_all_assigned env 0 id i.tasks as_assigned))
            (assign_all-All env id i.assets start p.assets_done)),
      ap (λ d. d.outbox) whole
          ∙ ap (λ out. out ++ event ∷ [])
              (create_all_outbox env 0 id i.tasks as_assigned
                ∙ assign_all_outbox env id i.assets start),
    )
  where
    some_is : {a b : Mission} → some a ≡ some b → a ≡ b
    some_is h = cc
