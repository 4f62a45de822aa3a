-- ===== src/Telemetry/Latest.antt =====
-- Without disturbance, the time at which an asset was last seen is the latest of its samples
-- (internal/telemetry/service.go).
use c4isr_systems.Prelude.{
  ℕ, String, ◌≡◌, ◌≤◌, refl, sym, ◌∙◌, ap, inl, inr, false, Option, none, some, List, [], ◌∷◌,
  str_eq, if◌then◌else◌, arith, Bool-cases, All,
}
use c4isr_systems.Platform.Apperr.{Result, ok, err}
use c4isr_systems.Platform.Table.{Table, find, put}
use c4isr_systems.Telemetry.{Sample, CreateInput, normalize}
use c4isr_systems.Telemetry.Store.{Outside, Env, Tables, Insert, stored, create}
use c4isr_systems.Telemetry.Service.{
  Db, Flags, project, ingest, announce, after_create, three_times, draft,
}
use c4isr_systems.Telemetry.Seen.{last_seen, later, bump}
use c4isr_systems.Telemetry.Insert.{Created, create-Created, ingest-cases}
use c4isr_systems.Telemetry.Projection.{ingest_all}
use c4isr_systems.Telemetry.Turns.{IsCalm}
use c4isr_systems.Telemetry.Attempts.{Projected, project-Projected}

-- The last time at which an asset was observed, by the stored samples.
unfoldable pub latest : String → Table Sample → Option ℕ
latest asset [] = none
latest asset ((k, s) ∷ t) =
    if str_eq s.asset_id asset then later (latest asset t) (some s.observed_at) else latest asset t

-- What the state of the assets should show.
abbrev pub IsLatest : Tables → Type 0
IsLatest t = (asset : String) → last_seen asset t ≡ latest asset t.samples

later_swap : (a b c : Option ℕ) → later (later a b) c ≡ later (later a c) b
later_swap none none none = refl
later_swap none none (some c) = refl
later_swap none (some b) none = refl
later_swap none (some b) (some c) = ground arith
later_swap (some a) none none = refl
later_swap (some a) none (some c) = refl
later_swap (some a) (some b) none = refl
later_swap (some a) (some b) (some c) = ground arith

-- A new sample counts, wherever it is stored.
latest-put :
    (asset k : String) (s : Sample) (t : Table Sample)
    → find k t ≡ none
    → latest asset (put k s t) ≡ bump s.asset_id s.observed_at asset (latest asset t)
unfolding latest put find
latest-put asset k s [] free = refl
latest-put asset k s ((j, q) ∷ t) free = elim (Bool-cases (str_eq j k)) [
  | inl same ↦ ground arith
  | inr other ↦ rw other (
      ground (
        arith,
        latest-put asset k s t (ground arith),
        later_swap (latest asset t) (some q.observed_at) (some s.observed_at),
      ))
]

-- Within a call in which no turn is disturbed.
created-IsLatest :
    (o : Outside) (env : Env) (s : Sample) (db : Db) (r : Insert × Tables)
    → All IsCalm (three_times env)
    → ((x : ℕ) → o.column_time x ≤ x)
    → Created o env.db_now s db.tables r
    → IsLatest db.tables
    → IsLatest (after_create o env db r).1.tables
unfolding stored last_seen
created-IsLatest o env s db (Insert.duplicate, t) calm truncates same h = rw same h
created-IsLatest o env s db (Insert.refused e, t) calm truncates same h = rw same h
created-IsLatest o env s db (Insert.inserted q, t) calm truncates (eq, table, free, fresh) h =
    let at = o.column_time s.observed_at in
    let rows = put s.id (stored o env.db_now s) db.tables.samples in
    let start = record db { tables = record db.tables { samples = rows } } in
    rw (eq, table)
      (go (project o env.now s (three_times env) false start) (
        project-Projected o env.now s (three_times env) false start calm (truncates s.observed_at)
          (λ e. cc)))
  where
    start : Db
    start = record db {
      tables = record db.tables { samples = put s.id (stored o env.db_now s) db.tables.samples };
    }

    go :
        (r : Result Flags × Db)
        → Projected s.asset_id (o.column_time s.observed_at) start.tables r
        → IsLatest (announce env.now s r).1.tables
    go (err e, after) p asset = elim p [ ]
    go (ok flags, after) (r, l) asset =
        l asset
        ∙ ap (bump s.asset_id (o.column_time s.observed_at) asset) (h asset)
        ∙ sym (
            ap (latest asset) r
            ∙ latest-put asset s.id (stored o env.db_now s) db.tables.samples free)

-- A call in which nothing fails after the insert and nobody else writes keeps the promise.
ingest-IsLatest :
    (o : Outside) (env : Env) (input : CreateInput) (db : Db)
    → All IsCalm (three_times env)
    → ((x : ℕ) → o.column_time x ≤ x)
    → IsLatest db.tables
    → IsLatest (ingest o env input db).1.tables
ingest-IsLatest o env input db calm truncates h =
    let s = draft env.now (normalize env.new_id env.now input) in
    elim (ingest-cases o env input db) [
      | inl (e, failing) ↦ rw failing h
      | inr runs ↦ rw runs (
          created-IsLatest o env s db (create o env s db.tables) calm truncates
            (create-Created o env s db.tables) h)
    ]

-- If timestamps are stored rounded down, then over any sequence of calls in which no turn of the
-- loop fails and nobody else writes, in whatever order the samples come and whichever are refused,
-- each asset was last seen at the time of the latest of its stored samples.
pub ingest_all-IsLatest :
    (o : Outside) (calls : List (Env × CreateInput)) (db : Db)
    → All (λ c. All IsCalm (three_times c.0)) calls
    → ((x : ℕ) → o.column_time x ≤ x)
    → IsLatest db.tables
    → IsLatest (ingest_all o calls db).tables
unfolding ingest_all
ingest_all-IsLatest o [] db calm truncates h = h
ingest_all-IsLatest o ((env, input) ∷ calls) db calm truncates h =
    ingest_all-IsLatest o calls (ingest o env input db).1 calm.1 truncates
      (ingest-IsLatest o env input db calm.0 truncates h)
