-- ===== src/Commands/Safety.antt =====
-- What one call of the command service can do, whatever other writers do between its read and its
-- write (internal/commands/service.go, internal/commands/postgres_repository.go).
use c4isr_systems.Prelude.{
  String, ◌≡◌, ◌≢◌, ◌⊎◌, inl, inr, refl, true, none, some, [], ◌∷◌, ◌++◌, arith, Bool-cases,
}
use c4isr_systems.Platform.Apperr.{Result, ok, err, Error, conflict_error, text}
use c4isr_systems.Platform.Table.{
  Table, find, put, update_where, update_where-eq-some, update_where_refused,
}
use c4isr_systems.Commands.{
  State, Command, can_transition, is_terminal, valid_state, invalid_transition,
}
use c4isr_systems.Commands.Store.{
  Env, get, get_command, transition_command, recheck_command, same_state, moved, transition_row,
}
use c4isr_systems.Commands.Service.{
  Db, command_status_changed, transition, move_from, announce_moved,
}
use c4isr_systems.Commands.Graph.{same_state_sound, terminal_stuck}

-- A successful write of the repository: the row stood in the expected state, and is replaced.
pub transition_row_ok :
    (env : Env) (id : String) (from to : State) (reason : String) (t : Table Command) {c : Command}
    {t' : Table Command}
    → transition_row env id from to reason t ≡ (ok c, t')
    → (q : Command) × (find id t ≡ some q)
      × (q.state ≡ from)
      × (c ≡ moved env.now to reason q)
      × (t' ≡ put id (moved env.now to reason q) t)
unfolding transition_row
transition_row_ok env id from to reason t {c} {t'} h =
    let won : update_where id (λ q. same_state q.state from) (moved env.now to reason) t
        ≡ some (c, t') =
      ground arith in
    let (q, found, guard, eq, table) =
      update_where-eq-some id (λ q. same_state q.state from) (moved env.now to reason) t won in
    (q, found, same_state_sound q.state from guard, eq, table)

pub transition_row_err :
    (env : Env) (id : String) (from to : State) (reason : String) (t : Table Command) {e : Error}
    {t' : Table Command}
    → transition_row env id from to reason t ≡ (err e, t')
    → t' ≡ t
unfolding transition_row
transition_row_err env id from to reason t h = ground arith

-- If the row has left the expected state, the write is refused with a conflict and changes nothing.
pub transition_row_lost :
    (env : Env) (id : String) (from to : State) (reason : String) (t : Table Command) {q : Command}
    → env.fault transition_command ≡ none
    → env.fault recheck_command ≡ none
    → find id t ≡ some q
    → q.state ≢ from
    → transition_row env id from to reason t
      ≡ (err (conflict_error (text "command state changed concurrently")), t)
unfolding transition_row
transition_row_lost env id from to reason t {q} f g found moved_on =
    elim (Bool-cases (same_state q.state from)) [
      | inl same ↦ absurd (moved_on (same_state_sound q.state from same))
      | inr differs ↦
          let lost : update_where id (λ r. same_state r.state from) (moved env.now to reason) t
              ≡ none =
            update_where_refused id (λ r. same_state r.state from) (moved env.now to reason) t found
              differs in
          ground arith
    ]

-- What a call leaves behind: on success one row has made a move of the diagram from the state in
-- which it really stood, no other row has changed since the others wrote, and one event says so; on
-- an error nothing was written and nothing published.
abbrev pub Outcome : Env → String → State → String → String → Db → Result Command × Db → Type 0
Outcome env id to reason actor db (err e, after) =
    ((after.rows ≡ db.rows) ⊎ (after.rows ≡ env.others db.rows)) × (after.outbox ≡ db.outbox)
Outcome env id to reason actor db (ok c, after) =
    (q : Command) × (find id (env.others db.rows) ≡ some q)
    × (can_transition q.state to ≡ true)
    × (c ≡ moved env.now to reason q)
    × (after.rows ≡ put id c (env.others db.rows))
    × (after.outbox ≡ db.outbox ++ command_status_changed c.id c.asset_id to reason actor ∷ [])

announce_Outcome :
    (env : Env) (id : String) (from to : State) (reason actor : String) (db : Db)
    → can_transition from to ≡ true
    → Outcome env id to reason actor db (
        announce_moved to reason actor db
          (transition_row env id from to reason (env.others db.rows)))
announce_Outcome env id from to reason actor db allowed =
    go (transition_row env id from to reason (env.others db.rows)) refl
  where
    go :
        (r : Result Command × Table Command)
        → transition_row env id from to reason (env.others db.rows) ≡ r
        → Outcome env id to reason actor db (announce_moved to reason actor db r)
    go (err e, t) h = (inr (transition_row_err env id from to reason (env.others db.rows) h), refl)
    go (ok c, t) h =
        let (q, found, state, eq, table) =
          transition_row_ok env id from to reason (env.others db.rows) h in
        (q, found, rw state allowed, eq, ground arith, refl)

-- Every call of `Transition`, under any failures and any interference of other writers, has one of
-- two outcomes. It fails, writes nothing and publishes nothing. Or the row found at the time of the
-- write was in a state from which the lifecycle allows the move, this row alone is rewritten, by
-- the stamps of the query, and exactly one command.status.changed is published.
pub transition_outcome :
    (env : Env) (id : String) (to : State) (reason actor : String) (db : Db)
    → Outcome env id to reason actor db (transition env id to reason actor db)
unfolding transition
transition_outcome env id to reason actor db = elim (Bool-cases (valid_state to)) [
  | inr invalid ↦ rw invalid (inl refl, refl)
  | inl valid ↦ rw valid (go (get env id db.rows))
]
  where
    go :
        (r : Result Command)
        → Outcome env id to reason actor db (move_from env id to reason actor db r)
    go (err e) = (inl refl, refl)
    go (ok current) = elim (Bool-cases (can_transition current.state to)) [
      | inr no_move ↦ rw no_move (inl refl, refl)
      | inl allowed ↦ rw allowed (announce_Outcome env id current.state to reason actor db allowed)
    ]

-- A lost race is reported: if the command was read in a state from which the move is allowed, but
-- others have moved it to another state before the write, and no query fails, the call returns a
-- conflict, publishes nothing and leaves the table as the others left it.
pub transition_lost_race :
    (env : Env) (id : String) (to : State) (reason actor : String) (db : Db) {seen q : Command}
    → env.fault get_command ≡ none
    → env.fault transition_command ≡ none
    → env.fault recheck_command ≡ none
    → valid_state to ≡ true
    → find id db.rows ≡ some seen
    → can_transition seen.state to ≡ true
    → find id (env.others db.rows) ≡ some q
    → q.state ≢ seen.state
    → transition env id to reason actor db ≡ (
      err (conflict_error (text "command state changed concurrently")),
      record db { rows = env.others db.rows },
    )
unfolding transition get
transition_lost_race env id to reason actor db {seen} g f r valid found allowed now_found moved_on =
    ground (
      arith,
      transition_row_lost env id seen.state to reason (env.others db.rows) f r now_found moved_on,
    )

-- A command in a terminal state refuses every valid target with a conflict and stays as it is,
-- whoever asks, if it can be read.
pub transition_terminal :
    (env : Env) (id : String) (to : State) (reason actor : String) (db : Db) {seen : Command}
    → env.fault get_command ≡ none
    → valid_state to ≡ true
    → find id db.rows ≡ some seen
    → is_terminal seen.state ≡ true
    → transition env id to reason actor db ≡ (err (invalid_transition seen.state to), db)
unfolding transition get
transition_terminal env id to reason actor db {seen} g valid found terminal =
    ground (arith, terminal_stuck seen.state to terminal)
