-- ===== src/Tracks/Evidence.antt =====
-- Tracks, evidence and history over any sequence of calls (internal/tracks/service.go).
use c4isr_systems.Prelude.{ℕ, String, Option, List, [], ◌∷◌, ◌++◌, All}
use c4isr_systems.Platform.Apperr.{Result, ok, err}
use c4isr_systems.Platform.Geo.{Outside}
use c4isr_systems.Platform.Table.{DbError}
use c4isr_systems.Tracks.{Track}
use c4isr_systems.Tracks.Store.{Query, Tables, Attempt}
use c4isr_systems.Tracks.Writes.{close_row}
use c4isr_systems.Tracks.Correlation.{ObservationReceived, track_closed, Env, Db}
use c4isr_systems.Tracks.Service.{handle_observation_received, close_track, three_times}
use c4isr_systems.Tracks.Walk.{IsKept, Respects, IsRespected, handle_observation_received-Kept}
use c4isr_systems.Tracks.Growth.{Grows, Grows-refl, Grows-trans}
use c4isr_systems.Tracks.Steps.{
  create-Grows, attach_observation_to-Grows, mark-Grows, apply_with_history-Grows, close_row-Grows,
}

-- The calls of the service that write.
pub data Call : Type 0 where
  observes : Env → ObservationReceived → Call
  closes : (now clock : ℕ) (fault : Option DbError) (id : String) → Call

unfoldable pub apply : Outside → Call → Db → Db
apply o (observes env ev) db = (handle_observation_received o env ev db).1
apply o (closes now clock fault id) db = (close_track now clock fault id db).1

unfoldable pub apply_all : Outside → List Call → Db → Db
apply_all o [] db = db
apply_all o (c ∷ cs) db = apply_all o cs (apply o c db)

-- During a call the other writers do no more than such calls do.
pub record LetsGrow (a : Attempt) : Type 0 where
  pub before : (t : Tables) → Grows t (a.before t)
  pub between : (t : Tables) → Grows t (a.between t)

abbrev pub Relies : Call → Type 0
Relies (observes env ev) =
    ((q : Query) (t : Tables) → Grows t (env.others q t)) × All LetsGrow (three_times env)
Relies (closes now clock fault id) = Unit

grown-IsKept : (o : Outside) (start : Tables) → IsKept o (Grows start)
grown-IsKept o start = record {
  creates = λ clock fault track t h. Grows-trans start t _ h (create-Grows o clock fault track t);
  attaches =
      λ fault obs id t h. Grows-trans start t _ h (attach_observation_to-Grows fault obs id t);
  applies = λ a u observed expected point obs t h.
      Grows-trans start t _ h (apply_with_history-Grows o a u observed expected point obs t);
  marks = λ clock obs t h. Grows-trans start t _ h (mark-Grows clock obs t);
}

grown-Respects : (start : Tables) (a : Attempt) → LetsGrow a → Respects (Grows start) a
grown-Respects start a r = record {
  before = λ t h. Grows-trans start t (a.before t) h (r.before t);
  between = λ t h. Grows-trans start t (a.between t) h (r.between t);
}

grown-IsRespected :
    (start : Tables) (env : Env) (ev : ObservationReceived)
    → Relies (observes env ev)
    → IsRespected (Grows start) env
grown-IsRespected start env ev (others, (r1, (r2, (r3, end)))) = record {
  others = λ q t h. Grows-trans start t (env.others q t) h (others q t);
  turns = (
    grown-Respects start env.first r1,
    (grown-Respects start env.second r2, (grown-Respects start env.third r3, tt)),
  );
}

apply-Grows : (o : Outside) (c : Call) (db : Db) → Relies c → Grows db.tables (apply o c db).tables
unfolding apply close_track
apply-Grows o (observes env ev) db r =
    handle_observation_received-Kept o (Grows db.tables) (grown-IsKept o db.tables) env
      (grown-IsRespected db.tables env ev r) ev db (Grows-refl db.tables)
apply-Grows o (closes now clock fault id) db r = go (close_row fault clock id db.tables).0
  where
    t : Tables
    t = (close_row fault clock id db.tables).1

    go :
        (x : Result Track)
        → Grows db.tables
            (elim x as (λ y. Result Track × Db) [
              | err e ↦ (err e, record db { tables = t })
              | ok row ↦ (
                ok row,
                record db { tables = t; outbox = db.outbox ++ track_closed now row.id ∷ [] },
              )
            ]).1.tables
    go (err e) = close_row-Grows fault clock id db.tables
    go (ok row) = close_row-Grows fault clock id db.tables

-- Over any sequence of observations that come in and of closings, under any failures, if other
-- writers do no more than such calls: no track is lost or changes its origin, a closed one stays
-- closed, the time of one that has a state never goes back, no observation changes its track, and
-- no point of the history is lost or changed.
pub apply_all-Grows :
    (o : Outside) (calls : List Call) (db : Db)
    → All Relies calls
    → Grows db.tables (apply_all o calls db).tables
unfolding apply_all
apply_all-Grows o [] db r = Grows-refl db.tables
apply_all-Grows o (c ∷ cs) db r =
    Grows-trans db.tables (apply o c db).tables (apply_all o cs (apply o c db)).tables
      (apply-Grows o c db r.0) (apply_all-Grows o cs (apply o c db) r.1)
