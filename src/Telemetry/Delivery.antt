-- ===== src/Telemetry/Delivery.antt =====
-- What Ingest answers and publishes, and what a retry of a sample does
-- (internal/telemetry/service.go).
use c4isr_systems.Prelude.{
  ℕ, ◌≡◌, ◌⊎◌, refl, sym, ◌∙◌, ap, subst, inl, inr, Bool, true, false, not, none, some, List, [],
  ◌∷◌, ◌++◌, if_both,
}
use c4isr_systems.Platform.Apperr.{Result, ok, err}
use c4isr_systems.Telemetry.{Sample, CreateInput, normalize, StateSnapshot}
use c4isr_systems.Telemetry.Store.{
  Outside, Attempt, Env, Tables, apply_state, state_snapshot, Insert, create,
}
use c4isr_systems.Telemetry.Service.{
  Db, Event, telemetry_received, IngestResult, update_of, position_events, connection_events, Turn,
  fails, behind, loses, wins, turn, after_apply, after_snapshot, Flags, project, ingest, announce,
  after_create, seen_later, three_times, draft,
}
use c4isr_systems.Telemetry.Insert.{Created, create-Created, ingest-cases}

-- The events of a turn that has updated the state.
abbrev pub Moved : Outside → ℕ → Sample → List Event → List Event → Type 0
Moved o now s before after =
    (snapshot : StateSnapshot) × (after
      ≡ before
        ++ (position_events now s (update_of o s snapshot)
            ++ connection_events now s snapshot (update_of o s snapshot)))

abbrev Turned : Outside → ℕ → Sample → List Event → Turn × Db → Type 0
Turned o now s before (wins, after) = Moved o now s before after.outbox
Turned o now s before (_, after) = after.outbox ≡ before

turn-Turned :
    (o : Outside) (now : ℕ) (s : Sample) (a : Attempt) (db : Db)
    → Turned o now s db.outbox (turn o now s a db)
unfolding turn
turn-Turned o now s a db = go (state_snapshot a s.asset_id (a.before db.tables))
  where
    applied :
        (snapshot : StateSnapshot) (r : Result Bool × Tables)
        → Turned o now s db.outbox (after_apply now s snapshot (update_of o s snapshot) db r)
    applied snapshot (err e, t) = refl
    applied snapshot (ok false, t) = refl
    applied snapshot (ok true, t) = (snapshot, refl)

    go :
        (r : Result StateSnapshot × Tables)
        → Turned o now s db.outbox (after_snapshot o now s a db r)
    go (err e, t) = refl
    go (ok snapshot, t) =
        if_both (Turned o now s db.outbox) (seen_later s.observed_at snapshot.last_seen_at) refl (
          applied snapshot
            (apply_state o a (update_of o s snapshot) snapshot.last_seen_at (a.between t)))

-- The loop has updated the state and said so, or the sample is stale, or a query has failed.
abbrev Projected : Outside → ℕ → Sample → List Event → Result Flags × Db → Type 0
Projected o now s before (err e, after) = after.outbox ≡ before
Projected o now s before (ok flags, after) =
    ((flags.state_updated ≡ true) × (flags.stale ≡ false) × Moved o now s before after.outbox)
    ⊎ ((flags.state_updated ≡ false) × (flags.stale ≡ true) × (after.outbox ≡ before))

project-Projected :
    (o : Outside) (now : ℕ) (s : Sample) (attempts : List Attempt) (stale : Bool) (db : Db)
    → (attempts ≡ [] → stale ≡ true)
    → Projected o now s db.outbox (project o now s attempts stale db)
unfolding project
project-Projected o now s [] stale db tried = inr (refl, tried refl, refl)
project-Projected o now s (a ∷ attempts) stale db tried =
    go (turn o now s a db).0 (turn-Turned o now s a db)
      (project-Projected o now s attempts true (turn o now s a db).1 (λ e. refl))
  where
    next : Db
    next = (turn o now s a db).1

    go :
        (x : Turn)
        → Turned o now s db.outbox (x, next)
        → Projected o now s next.outbox (project o now s attempts true next)
        → Projected o now s db.outbox (elim x as (λ y. Result Flags × Db) [
          | fails e ↦ (err e, next)
          | behind ↦ (ok (record { stale = true; state_updated = false }), next)
          | loses ↦ project o now s attempts true next
          | wins ↦ (ok (record { stale = false; state_updated = true }), next)
        ])
    go (fails e) h rest = h
    go behind h rest = inr (refl, refl, h)
    go wins h rest = inl (refl, refl, h)
    go loses h rest = subst (λ l. Projected o now s l (project o now s attempts true next)) h rest

-- What a call may answer and publish.
unfoldable pub Ingested : Outside → ℕ → Sample → Db → Result IngestResult × Db → Type 0
Ingested o now s db (err e, after) = after.outbox ≡ db.outbox
Ingested o now s db (ok r, after) =
    ((r.duplicate ≡ true) × (r.sample ≡ none) × (after ≡ db))
    ⊎ ((r.duplicate ≡ false)
        × (r.sample ≡ some s)
        × (r.stale ≡ not r.state_updated)
        × (published : List Event) × (after.outbox
            ≡ published
              ++ telemetry_received now s.id s.asset_id s.source_id s.observed_at r.stale false
                ∷ [])
        × (((r.state_updated ≡ true) × Moved o now s db.outbox published)
            ⊎ ((r.state_updated ≡ false) × (published ≡ db.outbox))))

announce-Ingested :
    (o : Outside) (now : ℕ) (s : Sample) (db : Db) (r : Result Flags × Db)
    → Projected o now s db.outbox r
    → Ingested o now s db (announce now s r)
unfolding Ingested
announce-Ingested o now s db (err e, after) h = h
announce-Ingested o now s db (ok flags, after) (inl (updated, fresh, moved)) =
    inr (refl, refl, fresh ∙ sym (ap not updated), after.outbox, refl, inl (updated, moved))
announce-Ingested o now s db (ok flags, after) (inr (kept, stale, same)) =
    inr (refl, refl, stale ∙ sym (ap not kept), after.outbox, refl, inr (kept, same))

created-Ingested :
    (o : Outside) (env : Env) (s : Sample) (db : Db) (r : Insert × Tables)
    → Created o env.db_now s db.tables r
    → Ingested o env.now s db (after_create o env db r)
unfolding Ingested
created-Ingested o env s db (Insert.duplicate, t) same =
    inl (refl, refl, ap (λ x. record db { tables = x }) same)
created-Ingested o env s db (Insert.refused e, t) same = refl
created-Ingested o env s db (Insert.inserted q, t) (eq, table, free, fresh) = rw eq (
    unfold Ingested in
    announce-Ingested o env.now s db
      (project o env.now s (three_times env) false (record db { tables = t }))
      (project-Projected o env.now s (three_times env) false (record db { tables = t }) (λ e. cc)))

-- Whatever fails and whoever else writes: a call that fails publishes nothing; one that answers
-- "duplicate" has changed nothing and published nothing; any other one is stale exactly if it has
-- not updated the state, and publishes telemetry.received last, after the events of the update
-- if there was one.
pub ingest-Ingested :
    (o : Outside) (env : Env) (input : CreateInput) (db : Db)
    → Ingested o env.now
        (draft env.now (normalize env.new_id env.now input))
        db
        (ingest o env input db)
ingest-Ingested o env input db =
    let s = draft env.now (normalize env.new_id env.now input) in
    elim (ingest-cases o env input db) [
      | inl (e, failing) ↦ rw failing (unfold Ingested in refl)
      | inr runs ↦ rw runs (
          created-Ingested o env s db (create o env s db.tables) (create-Created o env s db.tables))
    ]
