-- ===== src/Tracks/Steps.antt =====
-- Each write of the repository lets the tables of the tracks grow
-- (internal/tracks/postgres_repository.go).
use c4isr_systems.Prelude.{
  ℕ, String, ◌≡◌, ◌≤◌, refl, ◌∙◌, ap, Bool, true, false, Option, none, some, str_eq, if◌then◌else◌,
  Option-cases, inl, inr, arith, subst,
}
use c4isr_systems.Platform.Apperr.{Error}
use c4isr_systems.Platform.Geo.{Outside}
use c4isr_systems.Platform.Table.{
  Table, find, put, find-put, update_where, update_where-eq-some, DbError,
}
use c4isr_systems.Tracks.{closed, Track, HistoryPoint, StateUpdate}
use c4isr_systems.Tracks.Store.{
  Tables, Attempt, StateRow, begin_transaction, apply_observation, create_history,
  mark_in_transaction, commit, create, create_conflict, created_row,
}
use c4isr_systems.Tracks.Writes.{
  link, attach_observation_to, mark, advance, advances, projected, add_history, mark_after,
  finish_tx, apply_with_history, close_row,
}
use c4isr_systems.Tracks.Growth.{
  Keeps-put, is_there, is_projected, Grows, Grows-refl, Grows-trans, aside-Grows, new_track-Grows,
  replaced-Grows,
}

pub create-Grows :
    (o : Outside) (clock : ℕ) (fault : Option DbError) (track : Track) (t : Tables)
    → Grows t (create o clock fault track t).1
unfolding create
create-Grows o clock (some e) track t = Grows-refl t
create-Grows o clock none track t = elim (Option-cases (find track.id t.tracks)) [
  | inr (old, taken) ↦ rw (taken, create) (Grows-refl t)
  | inl free ↦ elim (Option-cases (create_conflict track t none)) [
    | inr (name, conflict) ↦ rw (free, create, conflict) (Grows-refl t)
    | inl fresh ↦
        rw (free, create, fresh) (new_track-Grows track.id (created_row o clock track) t free)
  ]
]

link-Grows : (obs id : String) (t : Tables) → Grows t (link obs id t).1
unfolding link
link-Grows obs id t = elim (Option-cases (find obs t.observations)) [
  | inl e ↦ rw (e, link) (Grows-refl t)
  | inr (p, e) ↦ elim (Option-cases (find obs t.links)) [
    | inr (owner, f) ↦ rw (e, f, link) (Grows-refl t)
    | inl free ↦
        rw (e, free, link)
          (aside-Grows t (record t { links = put obs id t.links }) refl refl
            (Keeps-put obs id t.links free) (λ k r e. e))
  ]
]

pub attach_observation_to-Grows :
    (fault : Option DbError) (obs id : String) (t : Tables)
    → Grows t (attach_observation_to fault obs id t).1
unfolding attach_observation_to
attach_observation_to-Grows (some e) obs id t = Grows-refl t
attach_observation_to-Grows none obs id t = link-Grows obs id t

pub mark-Grows : (clock : ℕ) (obs : String) (t : Tables) → Grows t (mark clock obs t)
unfolding mark
mark-Grows clock obs t = elim (Option-cases (find obs t.observations)) [
  | inl e ↦ rw (e, mark) (Grows-refl t)
  | inr (p, e) ↦
      rw (e, mark)
        (aside-Grows t (record t { observations = put obs (some clock) t.observations }) refl refl
          (λ k r e. e) (λ k r e. e))
]

put-is_projected :
    (id k : String) (state : StateRow) (t : Tables)
    → is_projected k t ≡ true
    → is_projected k (record t { states = put id state t.states }) ≡ true
put-is_projected id k state t p = ap is_there (find-put id k state t.states) ∙ there (str_eq id k)
  where
    there : (b : Bool) → is_there (if b then some state else find k t.states) ≡ true
    there true = refl
    there false = p

-- A row advances to a later time if it has a state.
advances_later :
    (observed expected : ℕ) (state : Option StateRow) (row : Track)
    → advances observed expected state row ≡ true
    → is_there state ≡ true
    → row.last_seen_at ≤ observed
unfolding advances
advances_later observed expected none row h p = cc
advances_later observed expected (some s) row h p = ground arith

advanced-Grows :
    (clock : ℕ) (u : StateUpdate) (observed expected : ℕ) (t : Tables) (old : Track)
    → find u.track_id t.tracks ≡ some old
    → advances observed expected (find u.track_id t.states) old ≡ true
    → Grows t (record t {
      tracks = put u.track_id (record old { last_seen_at = observed; updated_at = clock }) t.tracks;
      states = put u.track_id (projected clock u (find u.track_id t.states)) t.states;
    })
advanced-Grows clock u observed expected t old there passes =
    let state = projected clock u (find u.track_id t.states) in
    replaced-Grows u.track_id old (record old { last_seen_at = observed; updated_at = clock })
      (put u.track_id state t.states) t there
      (record {
        same_reference = refl;
        same_origin = refl;
        same_start = refl;
        stays_closed = λ h. h;
      })
      (λ p. (
        put-is_projected u.track_id u.track_id state t p,
        advances_later observed expected (find u.track_id t.states) old passes p,
      ))
      (λ k p. put-is_projected u.track_id k state t p)

advance-Grows :
    (clock : ℕ) (u : StateUpdate) (observed expected : ℕ) (t : Tables) {t' : Tables}
    → advance clock u observed expected t ≡ some t'
    → Grows t t'
unfolding advance
advance-Grows clock u observed expected t {t'} h = go written refl h
  where
    written : Option (Track × Table Track)
    written =
        update_where u.track_id (advances observed expected (find u.track_id t.states))
          (λ row. record row { last_seen_at = observed; updated_at = clock }) t.tracks

    go :
        (x : Option (Track × Table Track))
        → written ≡ x
        → (elim x as (λ y. Option Tables) [
          | none ↦ none
          | some (row, rows) ↦ some (record t {
            tracks = rows;
            states = put u.track_id (projected clock u (find u.track_id t.states)) t.states;
          })
        ])
          ≡ some t'
        → Grows t t'
    go none e h = cc
    go (some (row, rows)) e h =
        let (old, there, passes, eq, table) =
          update_where-eq-some u.track_id (advances observed expected (find u.track_id t.states))
            (λ row. record row { last_seen_at = observed; updated_at = clock }) t.tracks e in
        let same : record t {
          tracks = rows;
          states = put u.track_id (projected clock u (find u.track_id t.states)) t.states;
        }
            ≡ t' =
          cc in
        subst (λ x. Grows t x) same
          (rw table (advanced-Grows clock u observed expected t old there passes))

add_history-Grows :
    (o : Outside) (h : Option HistoryPoint) (fault : Option DbError) (t : Tables)
    → Grows t (add_history o h fault t).1
add_history-Grows o none fault t = Grows-refl t
add_history-Grows o (some h) (some e) t = Grows-refl t
add_history-Grows o (some h) none t = elim (Option-cases (find h.id t.history)) [
  | inr (old, e) ↦ rw (e, add_history) (Grows-refl t)
  | inl free ↦
      rw (free, add_history)
        (let point = record h { observed_at = o.column_time h.observed_at } in
          aside-Grows t (record t { history = put h.id point t.history }) refl refl (λ k r e. e)
            (Keeps-put h.id point t.history free))
]

mark_after-Grows :
    (a : Attempt) (obs : String) (t : Tables) (x : Option Error × Tables)
    → Grows t x.1
    → Grows t (mark_after a obs x).1
mark_after-Grows a obs t (some e, u) h = h
mark_after-Grows a obs t (none, u) h = elim (Option-cases (a.fault mark_in_transaction)) [
  | inr (e, f) ↦ rw (f, mark_after) h
  | inl f ↦ rw (f, mark_after) (Grows-trans t u (mark a.clock obs u) h (mark-Grows a.clock obs u))
]

finish_tx-Grows :
    (a : Attempt) (applied : Bool) (t : Tables) (x : Option Error × Tables)
    → Grows t x.1
    → Grows t (finish_tx a applied t x).1
finish_tx-Grows a applied t (some e, u) h = Grows-refl t
finish_tx-Grows a applied t (none, u) h = elim (Option-cases (a.fault commit)) [
  | inr (e, f) ↦ rw (f, finish_tx) (Grows-refl t)
  | inl f ↦ rw (f, finish_tx) h
]

pub apply_with_history-Grows :
    (o : Outside) (a : Attempt) (u : StateUpdate) (observed expected : ℕ) (h : Option HistoryPoint)
    (obs : String) (t : Tables)
    → Grows t (apply_with_history o a u observed expected h obs t).1
unfolding apply_with_history
apply_with_history-Grows o a u observed expected h obs t =
    elim (Option-cases (a.fault begin_transaction)) [
      | inr (e, f) ↦ rw (f, apply_with_history) (Grows-refl t)
      | inl f ↦ elim (Option-cases (a.fault apply_observation)) [
        | inr (e, g) ↦ rw (f, g, apply_with_history) (Grows-refl t)
        | inl g ↦ elim (Option-cases (advance a.clock u (o.column_time observed) expected t)) [
          | inl lost ↦
              rw (f, g, lost, apply_with_history)
                (finish_tx-Grows a false t (none, t) (Grows-refl t))
          | inr (t', won) ↦
              let added = add_history o h (a.fault create_history) t' in
              rw (f, g, won, apply_with_history)
                (finish_tx-Grows a true t (mark_after a obs added) (
                  mark_after-Grows a obs t added (
                    Grows-trans t t' added.1
                      (advance-Grows a.clock u (o.column_time observed) expected t won)
                      (add_history-Grows o h (a.fault create_history) t'))))
        ]
      ]
    ]

pub close_row-Grows :
    (fault : Option DbError) (clock : ℕ) (id : String) (t : Tables)
    → Grows t (close_row fault clock id t).1
unfolding close_row update_where
close_row-Grows (some e) clock id t = Grows-refl t
close_row-Grows none clock id t = elim (Option-cases (find id t.tracks)) [
  | inl e ↦ rw (close_row, update_where, e) (Grows-refl t)
  | inr (old, e) ↦
      rw (close_row, update_where, e)
        (replaced-Grows id old
          (record old { status = closed; closed_at = some clock; updated_at = clock }) t.states t e
          (record {
            same_reference = refl;
            same_origin = refl;
            same_start = refl;
            stays_closed = λ h. refl;
          })
          (λ p. (p, omega arith)) (λ k p. p))
]
