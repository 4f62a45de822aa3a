-- ===== src/Platform/Table.antt =====
-- A PostgreSQL table with a text primary key, as the queries of db/queries use it: an association
-- list in insertion order.
use c4isr_systems.Prelude.{
  String, ◌≡◌, refl, Bool, true, false, Option, none, some, List, [], ◌∷◌, arith, str_eq, eq_iff,
  if◌then◌else◌, inl, inr, Bool-cases, subst,
}
use c4isr_systems.Platform.Apperr.{Error, plain}

abbrev pub Table {ℓ} : Type ℓ → Type ℓ
Table R = List (String × R)

module _ {ℓ} {R : Type ℓ} where
  -- SELECT ... WHERE id = @id
  unfoldable pub find : String → Table R → Option R
  find k [] = none
  find k ((j, r) ∷ t) = if str_eq j k then some r else find k t

  -- The row of this key is replaced, or inserted where there is none.
  unfoldable pub put : String → R → Table R → Table R
  put k r [] = (k, r) ∷ []
  put k r ((j, q) ∷ t) = if str_eq j k then (k, r) ∷ t else (j, q) ∷ put k r t

  pub find-put :
      (k j : String) (r : R) (t : Table R)
      → find j (put k r t) ≡ (if str_eq k j then some r else find j t)
  unfolding find put
  find-put k j r [] = refl
  find-put k j r ((i, q) ∷ t) = ground (arith, eq_iff k j, eq_iff i k, eq_iff i j, find-put k j r t)

module _ {ℓ} {R : Type ℓ} where
  -- UPDATE ... SET f WHERE id = @id AND p RETURNING *: none where no row fits.
  unfoldable pub update_where : String → (R → Bool) → (R → R) → Table R → Option (R × Table R)
  update_where k p f t = elim (find k t) [
    | none ↦ none
    | some r ↦ if p r then some (f r, put k (f r) t) else none
  ]

-- What a query can fail with: the classes of PostgreSQL errors that the repositories tell apart
-- (23503 and 23505 with the constraint's name), and any other failure.
pub data DbError : Type 0 where
  foreign_key : String → DbError
  unique : String → DbError
  failed : String → DbError

-- The error as it goes up unmapped.
abbrev pub raw : DbError → Error
raw (foreign_key name) = plain name
raw (unique name) = plain name
raw (failed text) = plain text

module _ {ℓ} {R : Type ℓ} where
  -- A guarded update that succeeds has found a row that passes the guard, and has replaced it.
  pub update_where-eq-some :
      (k : String) (p : R → Bool) (f : R → R) (t : Table R) {r : R} {t' : Table R}
      → update_where k p f t ≡ some (r, t')
      → (q : R) × (find k t ≡ some q) × (p q ≡ true) × (r ≡ f q) × (t' ≡ put k (f q) t)
  unfolding update_where
  update_where-eq-some k p f t h = ground arith

  -- It has no effect where the row does not pass.
  pub update_where_refused :
      (k : String) (p : R → Bool) (f : R → R) (t : Table R) {q : R}
      → find k t ≡ some q
      → p q ≡ false
      → update_where k p f t ≡ none
  unfolding update_where
  update_where_refused k p f t e h = ground arith

-- What holds of every row.
abbrev pub Rows {ℓ κ} : {R : Type ℓ} → (R → Type κ) → Table R → Type κ
Rows P [] = Unit
Rows P ((k, r) ∷ t) = P r × Rows P t

module _ {ℓ κ} {R : Type ℓ} (P : R → Type κ) where
  pub Rows-put : (k : String) (r : R) (t : Table R) → P r → Rows P t → Rows P (put k r t)
  unfolding put
  Rows-put k r [] h hs = (h, tt)
  Rows-put k r ((j, q) ∷ t) h hs = elim (Bool-cases (str_eq j k)) [
    | inl same ↦ rw same (h, hs.1)
    | inr other ↦ rw other (hs.0, Rows-put k r t h hs.1)
  ]

  pub Rows-find : (k : String) (t : Table R) {r : R} → Rows P t → find k t ≡ some r → P r
  unfolding find
  Rows-find k [] hs e = cc
  Rows-find k ((j, q) ∷ t) {r} hs e = elim (Bool-cases (str_eq j k)) [
    | inl same ↦ let eq : q ≡ r = ground arith in subst P eq hs.0
    | inr other ↦ Rows-find k t hs.1 (ground arith)
  ]
