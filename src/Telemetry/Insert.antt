-- ===== src/Telemetry/Insert.antt =====
-- The cases of an ingestion up to its insert (internal/telemetry/service.go,
-- internal/telemetry/postgres_repository.go).
use c4isr_systems.Prelude.{
  ℕ, ◌≡◌, ◌⊎◌, refl, inl, inr, Bool, true, false, none, Option-cases, Bool-cases, if_both, is_empty,
  contains,
}
use c4isr_systems.Platform.Apperr.{Error, Result, ok, err, validation_error, labelled}
use c4isr_systems.Platform.Table.{find, put, DbError}
use c4isr_systems.Telemetry.{Sample, CreateInput, normalize, validate}
use c4isr_systems.Telemetry.Store.{
  Outside, Env, Tables, Insert, stored, create, has_message, insert_row, insert_error,
}
use c4isr_systems.Telemetry.Service.{Db, ingest, after_create, draft}

-- An insert that succeeds stores the sample under a free id, and no message id twice.
abbrev pub Created : Outside → ℕ → Sample → Tables → Insert × Tables → Type 0
Created o db_now s t (Insert.inserted q, after) =
    (q ≡ s)
    × (after ≡ record t { samples = put s.id (stored o db_now s) t.samples })
    × (find s.id t.samples ≡ none)
    × (has_message s.message_id t.samples ≡ false)
Created o db_now s t (Insert.duplicate, after) = after ≡ t
Created o db_now s t (Insert.refused e, after) = after ≡ t

insert_error-Created :
    (o : Outside) (db_now : ℕ) (s : Sample) (t : Tables) (e : DbError)
    → Created o db_now s t (insert_error s e, t)
insert_error-Created o db_now s t (DbError.unique name) =
    if_both (λ i. Created o db_now s t (i, t)) (is_empty s.message_id) refl refl
insert_error-Created o db_now s t (DbError.foreign_key name) =
    if_both (λ i. Created o db_now s t (i, t)) (contains "source_id" name) refl refl
insert_error-Created o db_now s t (DbError.failed e) = refl

pub create-Created :
    (o : Outside) (env : Env) (s : Sample) (t : Tables)
    → Created o env.db_now s t (create o env s t)
unfolding create
create-Created o env s t = elim (Option-cases env.create_fault) [
  | inr (e, f) ↦ rw (f, create) (insert_error-Created o env.db_now s t e)
  | inl f ↦ elim (Bool-cases (has_message s.message_id t.samples)) [
    | inl known ↦ rw (f, known, create) refl
    | inr fresh ↦ elim (Option-cases (find s.id t.samples)) [
      | inr (old, taken) ↦
          rw (f, fresh, taken, create, insert_row)
            (insert_error-Created o env.db_now s t (DbError.unique "asset_telemetry_pkey"))
      | inl free ↦ elim (Option-cases env.broken_reference) [
        | inr (name, broken) ↦
            rw (f, fresh, free, broken, create, insert_row)
              (insert_error-Created o env.db_now s t (DbError.foreign_key name))
        | inl whole ↦ rw (f, fresh, free, whole, create, insert_row) (refl, refl, free, fresh)
      ]
    ]
  ]
]

-- Ingest fails before it touches anything, or goes on to the insert.
pub ingest-cases :
    (o : Outside) (env : Env) (input : CreateInput) (db : Db)
    → ((e : Error) × (ingest o env input db ≡ (err e, db)))
      ⊎ (ingest o env input db
          ≡ after_create o env db
              (create o env (draft env.now (normalize env.new_id env.now input)) db.tables))
unfolding ingest
ingest-cases o env input db =
    elim (Option-cases (validate env.now (normalize env.new_id env.now input))) [
      | inr (e, bad) ↦ inl (e, rw (bad, ingest) refl)
      | inl valid ↦ go valid (env.asset_exists (normalize env.new_id env.now input).asset_id) refl
    ]
  where
    go :
        validate env.now (normalize env.new_id env.now input) ≡ none
        → (r : Result Bool) → env.asset_exists (normalize env.new_id env.now input).asset_id ≡ r
        → ((e : Error) × (ingest o env input db ≡ (err e, db)))
          ⊎ (ingest o env input db
              ≡ after_create o env db
                  (create o env (draft env.now (normalize env.new_id env.now input)) db.tables))
    go valid (err e) f = inl (e, rw (valid, f, ingest) refl)
    go valid (ok false) f = inl (
      validation_error (labelled "unknown asset: " (normalize env.new_id env.now input).asset_id),
      rw (valid, f, ingest) refl,
    )
    go valid (ok true) f = inr (rw (valid, f, ingest) refl)
