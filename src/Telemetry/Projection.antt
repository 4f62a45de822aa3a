-- ===== src/Telemetry/Projection.antt =====
-- What the ingestion of telemetry does to the tables, whatever fails and whoever else writes
-- (internal/telemetry/service.go).
use c4isr_systems.Prelude.{
  ℕ, String, ◌≡◌, refl, inl, inr, Bool, true, false, List, [], ◌∷◌, arith, Option-cases, eq_refl,
  if_both, All,
}
use c4isr_systems.Platform.Apperr.{Result, ok, err}
use c4isr_systems.Platform.Table.{put, find-put}
use c4isr_systems.Telemetry.{Sample, CreateInput, normalize, StateUpdate, StateSnapshot}
use c4isr_systems.Telemetry.Store.{
  Outside, Attempt, Env, Tables, apply_state, state_snapshot, Insert, stored, create,
}
use c4isr_systems.Telemetry.Service.{
  Db, update_of, derive_kinematics, Turn, fails, behind, loses, wins, turn, after_apply,
  after_snapshot, Flags, project, ingest, announce, after_create, seen_later, three_times, draft,
}
use c4isr_systems.Telemetry.Seen.{Written, apply_state-Written}
use c4isr_systems.Telemetry.Growth.{
  Reported, Grows, Grows-refl, Grows-trans, ensure_state-Grows, put-Grows, insert-Grows,
}
use c4isr_systems.Telemetry.Insert.{Created, create-Created, ingest-cases}

-- The projection names the asset and the time of the sample.
pub update_of-Sample :
    (o : Outside) (s : Sample) (snapshot : StateSnapshot)
    → ((update_of o s snapshot).asset_id ≡ s.asset_id)
      × ((update_of o s snapshot).observed_at ≡ s.observed_at)
unfolding update_of derive_kinematics
update_of-Sample o s snapshot = ground arith

Reported-Grows :
    (asset : String) (at : ℕ) (t t' : Tables)
    → Grows t t'
    → Reported asset at t.samples
    → Reported asset at t'.samples
Reported-Grows asset at t t' g r = record {
  key = r.key;
  sample = r.sample;
  is_stored = g.keeps r.key r.sample r.is_stored;
  of_asset = r.of_asset;
  observed = r.observed;
}

Written-Grows :
    (o : Outside) (u : StateUpdate) (t : Tables) (r : Result Bool × Tables)
    → Reported u.asset_id (o.column_time u.observed_at) t.samples
    → Written o u t r
    → Grows t r.1
Written-Grows o u t (ok true, after) known (row, table, time, newer) =
    rw table (put-Grows u.asset_id row (o.column_time u.observed_at) t time newer known)
Written-Grows o u t (ok false, after) known same = rw same (Grows-refl t)
Written-Grows o u t (err e, after) known same = rw same (Grows-refl t)

state_snapshot-Grows :
    (a : Attempt) (asset : String) (t : Tables) → Grows t (state_snapshot a asset t).1
unfolding state_snapshot
state_snapshot-Grows a asset t = elim (Option-cases a.ensure_fault) [
  | inr (e, f) ↦ rw (f, state_snapshot) (Grows-refl t)
  | inl f ↦ rw (f, state_snapshot) (ensure_state-Grows a.clock asset t)
]

applied_tables :
    (now : ℕ) (s : Sample) (snapshot : StateSnapshot) (u : StateUpdate) (db : Db)
    (r : Result Bool × Tables)
    → (after_apply now s snapshot u db r).1.tables ≡ r.1
applied_tables now s snapshot u db (err e, t) = refl
applied_tables now s snapshot u db (ok false, t) = refl
applied_tables now s snapshot u db (ok true, t) = refl

-- What other writers may do during a turn.
pub record Relies (a : Attempt) : Type 0 where
  pub before : (t : Tables) → Grows t (a.before t)
  pub between : (t : Tables) → Grows t (a.between t)

turn-Grows :
    (o : Outside) (now : ℕ) (s : Sample) (a : Attempt) (db : Db)
    → Relies a
    → Reported s.asset_id (o.column_time s.observed_at) db.tables.samples
    → Grows db.tables (turn o now s a db).1.tables
unfolding turn
turn-Grows o now s a db rely known =
    let start = a.before db.tables in
    go (state_snapshot a s.asset_id start) (
      Grows-trans db.tables start (state_snapshot a s.asset_id start).1 (rely.before db.tables)
        (state_snapshot-Grows a s.asset_id start))
  where
    apply :
        (snapshot : StateSnapshot) (t : Tables)
        → Grows db.tables t
        → Grows db.tables
            (after_apply now s snapshot (update_of o s snapshot) db (
              apply_state o a
                (update_of o s snapshot)
                snapshot.last_seen_at
                (a.between t))).1.tables
    apply snapshot t g =
        let u = update_of o s snapshot in
        let (asset, at) = update_of-Sample o s snapshot in
        let mid = Grows-trans db.tables t (a.between t) g (rely.between t) in
        let here =
          Reported-Grows s.asset_id (o.column_time s.observed_at) db.tables (a.between t) mid
            known in
        let r = apply_state o a u snapshot.last_seen_at (a.between t) in
        rw (applied_tables now s snapshot u db r) (
          Grows-trans db.tables (a.between t) r.1 mid (
            Written-Grows o u (a.between t) r (rw (asset, at) here)
              (apply_state-Written o a u snapshot.last_seen_at (a.between t))))

    go :
        (r : Result StateSnapshot × Tables)
        → Grows db.tables r.1
        → Grows db.tables (after_snapshot o now s a db r).1.tables
    go (err e, t) g = g
    go (ok snapshot, t) g =
        if_both (λ (r : Turn × Db). Grows db.tables r.1.tables)
          (seen_later s.observed_at snapshot.last_seen_at) g (apply snapshot t g)

project-Grows :
    (o : Outside) (now : ℕ) (s : Sample) (attempts : List Attempt) (stale : Bool) (db : Db)
    → All Relies attempts
    → Reported s.asset_id (o.column_time s.observed_at) db.tables.samples
    → Grows db.tables (project o now s attempts stale db).1.tables
unfolding project
project-Grows o now s [] stale db rely known = Grows-refl db.tables
project-Grows o now s (a ∷ attempts) stale db rely known =
    go (λ g. project-Grows o now s attempts true (turn o now s a db).1 rely.1 g)
      (turn o now s a db).0
  where
    next : Db
    next = (turn o now s a db).1

    first : Grows db.tables next.tables
    first = turn-Grows o now s a db rely.0 known

    go :
        (Reported s.asset_id (o.column_time s.observed_at) next.tables.samples
          → Grows next.tables (project o now s attempts true next).1.tables)
        → (x : Turn)
        → Grows db.tables
            (elim x as (λ y. Result Flags × Db) [
              | fails e ↦ (err e, next)
              | behind ↦ (ok (record { stale = true; state_updated = false }), next)
              | loses ↦ project o now s attempts true next
              | wins ↦ (ok (record { stale = false; state_updated = true }), next)
            ]).1.tables
    go rest (fails e) = first
    go rest behind = first
    go rest wins = first
    go rest loses =
        Grows-trans db.tables next.tables (project o now s attempts true next).1.tables first (
          rest (
            Reported-Grows s.asset_id (o.column_time s.observed_at) db.tables next.tables first
              known))

announced_tables :
    (now : ℕ) (s : Sample) (r : Result Flags × Db) → (announce now s r).1.tables ≡ r.1.tables
announced_tables now s (err e, db) = refl
announced_tables now s (ok flags, db) = refl

after_create-Grows :
    (o : Outside) (env : Env) (s : Sample) (db : Db) (r : Insert × Tables)
    → All Relies (three_times env)
    → Created o env.db_now s db.tables r
    → Grows db.tables (after_create o env db r).1.tables
after_create-Grows o env s db (Insert.duplicate, t) rely same = rw same (Grows-refl db.tables)
after_create-Grows o env s db (Insert.refused e, t) rely same = rw same (Grows-refl db.tables)
after_create-Grows o env s db (Insert.inserted q, t) rely (eq, table, free, fresh) =
    let with_sample = put s.id (stored o env.db_now s) db.tables.samples in
    let start = record db { tables = record db.tables { samples = with_sample } } in
    let r = project o env.now s (three_times env) false start in
    rw (eq, table, announced_tables env.now s r)
      (Grows-trans db.tables start.tables r.1.tables (insert-Grows o env.db_now s db.tables free)
        (project-Grows o env.now s (three_times env) false start rely known))
  where
    known :
        Reported s.asset_id
          (o.column_time s.observed_at)
          (put s.id (stored o env.db_now s) db.tables.samples)
    known =
        unfold stored in
        record {
          key = s.id;
          sample = stored o env.db_now s;
          is_stored =
              rw (find-put s.id s.id (stored o env.db_now s) db.tables.samples, eq_refl s.id) refl;
          of_asset = refl;
          observed = refl;
        }

ingest-Grows :
    (o : Outside) (env : Env) (input : CreateInput) (db : Db)
    → All Relies (three_times env)
    → Grows db.tables (ingest o env input db).1.tables
ingest-Grows o env input db rely =
    let s = draft env.now (normalize env.new_id env.now input) in
    elim (ingest-cases o env input db) [
      | inl (e, failing) ↦ rw failing (Grows-refl db.tables)
      | inr runs ↦ rw runs (
          after_create-Grows o env s db (create o env s db.tables) rely
            (create-Created o env s db.tables))
    ]

-- Any sequence of samples that come in.
unfoldable pub ingest_all : Outside → List (Env × CreateInput) → Db → Db
ingest_all o [] db = db
ingest_all o ((env, input) ∷ calls) db = ingest_all o calls (ingest o env input db).1

-- Over any sequence of samples that come in, in whatever order and under any failures, if other
-- writers do so too: no stored sample is lost or changed, the time at which an asset was last seen
-- never goes back, and it stays the time of a stored sample of that asset.
pub ingest_all-Grows :
    (o : Outside) (calls : List (Env × CreateInput)) (db : Db)
    → All (λ c. All Relies (three_times c.0)) calls
    → Grows db.tables (ingest_all o calls db).tables
unfolding ingest_all
ingest_all-Grows o [] db rely = Grows-refl db.tables
ingest_all-Grows o ((env, input) ∷ calls) db rely =
    let next = (ingest o env input db).1 in
    Grows-trans db.tables next.tables (ingest_all o calls next).tables
      (ingest-Grows o env input db rely.0) (ingest_all-Grows o calls next rely.1)
