-- ===== src/Commands/Store.antt =====
-- internal/commands/postgres_repository.go over the queries of db/queries/commands.sql.
use c4isr_systems.Prelude.{ℕ, String, Bool, true, false, Option, none, some, str_eq, if◌then◌else◌}
use c4isr_systems.Platform.Apperr.{
  Error, Result, ok, err, bad_request_error, not_found_error, conflict_error, plain, text,
}
use c4isr_systems.Platform.Table.{Table, find, put, update_where, DbError, foreign_key, raw}
use c4isr_systems.Commands.{
  State, created, queued, sent, acknowledged, completed, rejected, timed_out, cancelled, other,
  Command,
}

-- The queries, each of which may fail.
pub data Query : Type 0 where
  create_command get_command transition_command recheck_command : Query

-- What one call finds outside: the database's clock, a new id, the asset registry, the failures of
-- the queries, and what other writers do to the table between its read and its write.
pub record Env : Type 0 where
  pub now : ℕ
  pub new_id : String
  pub asset_exists : String → Result Bool
  pub fault : Query → Option DbError
  pub others : Table Command → Table Command

-- `state = @from_state`
unfoldable pub same_state : State → State → Bool
same_state created created = true
same_state queued queued = true
same_state sent sent = true
same_state acknowledged acknowledged = true
same_state completed completed = true
same_state rejected rejected = true
same_state State.failed State.failed = true
same_state timed_out timed_out = true
same_state cancelled cancelled = true
same_state (other s) (other t) = str_eq s t
same_state _ _ = false

-- CASE WHEN c AND column IS NULL THEN now() ELSE column END
abbrev pub stamp_once : Bool → ℕ → Option ℕ → Option ℕ
stamp_once c now none = if c then some now else none
stamp_once c now (some at) = some at

-- `@state::text IN ('REJECTED', 'FAILED', 'TIMED_OUT')`
abbrev pub carries_reason : State → Bool
carries_reason rejected = true
carries_reason State.failed = true
carries_reason timed_out = true
carries_reason _ = false

-- The SET clause of TransitionCommand.
unfoldable pub moved : ℕ → State → String → Command → Command
unfolding same_state
moved now to reason c = record c {
  state = to;
  updated_at = now;
  queued_at = stamp_once (same_state to queued) now c.queued_at;
  sent_at = stamp_once (same_state to sent) now c.sent_at;
  acknowledged_at = stamp_once (same_state to acknowledged) now c.acknowledged_at;
  completed_at = stamp_once (same_state to completed) now c.completed_at;
  failure_reason = if carries_reason to then reason else c.failure_reason;
}

-- GetCommand, at one of the two places that run it.
abbrev pub fetch : Option DbError → String → Table Command → Result Command
fetch (some e) id t = err (raw e)
fetch none id t = elim (find id t) [ none ↦ err (not_found_error "command" id) | some c ↦ ok c ]

-- `Get`
unfoldable pub get : Env → String → Table Command → Result Command
get env id t = fetch (env.fault get_command) id t

-- After an update that found no row: `Get` once more tells a missing id from a lost race.
abbrev pub explain : Result Command → Result Command
explain (err e) = err e
explain (ok c) = err (conflict_error (text "command state changed concurrently"))

abbrev pub written :
    Env → String → Table Command → Option (Command × Table Command) → Result Command × Table Command
written env id t none = (explain (fetch (env.fault recheck_command) id t), t)
written env id t (some (c, t')) = (ok c, t')

-- `Transition`
unfoldable pub transition_row :
    Env → String → State → State → String → Table Command → Result Command × Table Command
transition_row env id from to reason t = elim (env.fault transition_command) [
  | some e ↦ (err (raw e), t)
  | none ↦
      written env id t (update_where id (λ c. same_state c.state from) (moved env.now to reason) t)
]

abbrev pub create_error : DbError → Error
create_error (foreign_key name) =
    bad_request_error (text "command references an unknown asset, mission, or incident")
create_error e = raw e

-- INSERT: the state is the given one and no time of the lifecycle is set.
unfoldable pub inserted : ℕ → Command → Command
inserted now c = record c {
  created_at = now;
  updated_at = now;
  queued_at = none;
  sent_at = none;
  acknowledged_at = none;
  completed_at = none;
  failure_reason = "";
}

abbrev pub insert_row :
    Env → Command → Table Command → Option Command → Result Command × Table Command
insert_row env c t (some old) = (err (plain "commands_pkey"), t)
insert_row env c t none =
    let row = inserted env.now c in
    let t' = put c.id row t in
    if same_state row.state sent then transition_row env c.id sent sent "" t' else (ok row, t')

-- `Create`: a command that is SENT at once is stamped by a second query.
unfoldable pub create : Env → Command → Table Command → Result Command × Table Command
create env c t = elim (env.fault create_command) [
  | some e ↦ (err (create_error e), t)
  | none ↦ insert_row env c t (find c.id t)
]
