-- ===== src/Tracks/Ownership.antt =====
-- The track that an observation is found to belong to (internal/tracks/postgres_repository.go).
use c4isr_systems.Prelude.{
  ◌⊎◌, String, ◌≡◌, refl, ◌∙◌, ap, true, false, none, some, [], ◌∷◌, str_eq, eq_iff, arith,
  Bool-cases, inl, inr,
}
use c4isr_systems.Platform.Apperr.{ok}
use c4isr_systems.Platform.Table.{Table, find}
use c4isr_systems.Tracks.{Track}
use c4isr_systems.Tracks.Store.{
  Tables, linked_to, link_test, candidates, first_sorted, owner_of, find_by_observation, joined,
}

find-cons :
    (j k : String) (q : Track) (rows : Table Track) {row : Track}
    → find k ((j, q) ∷ rows) ≡ some row
    → (q ≡ row) ⊎ (find k rows ≡ some row)
unfolding find
find-cons j k q rows e = ground arith

-- Whatever else belongs to the observation, a track that it began and is not linked to makes the
-- first row in the order one that it is not linked to.
first_sorted-candidates :
    (obs k : String) (t : Tables) (rows : Table Track) {row : Track}
    → find k rows ≡ some row
    → row.metadata.initial_observation_id ≡ obs
    → linked_to obs row.id t ≡ false
    → (first : Track) × (first_sorted (λ r. link_test obs r.id t) (candidates obs t rows)
        ≡ some first)
      × (linked_to obs first.id t ≡ false)
unfolding find candidates first_sorted
first_sorted-candidates obs k t [] there origin unlinked = cc
first_sorted-candidates obs k t ((j, q) ∷ rows) {row} there origin unlinked =
    elim (find-cons j k q rows there) [
      | inr later ↦ behind (first_sorted-candidates obs k t rows later origin unlinked)
      | inl same ↦
          let begins : str_eq q.metadata.initial_observation_id obs ≡ true =
            (eq_iff q.metadata.initial_observation_id obs).1
              (ap (λ (r : Track). r.metadata.initial_observation_id) same ∙ origin) in
          let free : linked_to obs q.id t ≡ false =
            ap (λ (r : Track). linked_to obs r.id t) same ∙ unlinked in
          (q, ground arith, free)
    ]
  where
    behind :
        (first : Track) × (first_sorted (λ r. link_test obs r.id t) (candidates obs t rows)
            ≡ some first)
          × (linked_to obs first.id t ≡ false)
        → (first : Track) × (first_sorted
              (λ r. link_test obs r.id t)
              (candidates obs t ((j, q) ∷ rows))
            ≡ some first)
          × (linked_to obs first.id t ≡ false)
    behind (first, found, apart) = elim (Bool-cases (linked_to obs q.id t)) [
      | inl linked ↦ (first, ground arith, apart)
      | inr free ↦ elim (Bool-cases (str_eq q.metadata.initial_observation_id obs)) [
        | inl begins ↦ (q, ground arith, free)
        | inr other ↦ (first, ground arith, apart)
      ]
    ]

-- The ORDER BY of FindTrackByObservationID means to prefer the track that the observation is linked
-- to. But where some track began with the observation and is not the one that it is linked to, a
-- track that it is not linked to is answered, since PostgreSQL puts NULL first.
pub initial_shadows_link :
    (obs k : String) (t : Tables) {row : Track}
    → find k t.tracks ≡ some row
    → row.metadata.initial_observation_id ≡ obs
    → linked_to obs row.id t ≡ false
    → (first : Track) × (find_by_observation none obs t ≡ ok (joined t first))
      × (linked_to obs first.id t ≡ false)
unfolding find_by_observation owner_of
initial_shadows_link obs k t there origin unlinked =
    let (first, chosen, other) = first_sorted-candidates obs k t t.tracks there origin unlinked in
    (first, rw (find_by_observation, owner_of, chosen) refl, other)
