-- ===== src/Commands/Issue.antt =====
-- What `Issue` leaves behind (internal/commands/service.go, internal/commands/postgres_repository.go).
use c4isr_systems.Prelude.{String, ◌≡◌, true, none, some, [], ◌∷◌, ◌++◌, arith, eq_refl}
use c4isr_systems.Platform.Apperr.{ok, err}
use c4isr_systems.Platform.Table.{Table, find, put, find-put, update_where, DbError, raw}
use c4isr_systems.Commands.{Command, IssueInput, sent, normalize, validate}
use c4isr_systems.Commands.Store.{
  Env, create_command, transition_command, moved, inserted, create, transition_row, same_state,
}
use c4isr_systems.Commands.Service.{Db, command_issued, draft, issue}

-- The command that a successful `Issue` stores and returns.
abbrev pub issued : Env → IssueInput → Command
issued env input = moved env.now sent "" (inserted env.now (draft env (normalize input)))

find_after_put : (k : String) (r : Command) (t : Table Command) → find k (put k r t) ≡ some r
find_after_put k r t = rw (find-put k k r t) (rw (eq_refl k))

module _ (env : Env) (input : IssueInput) (db : Db) (valid : validate (normalize input) ≡ none)
    (known : env.asset_exists (normalize input).asset_id ≡ ok true)
    (fresh : find env.new_id db.rows ≡ none) (runs : env.fault create_command ≡ none) where
  -- A valid command for a known asset, with a fresh id and no failing query, is stored as SENT with
  -- the time at which it was sent, is returned as it is stored, and is announced once.
  pub issue_ok :
      env.fault transition_command ≡ none
      → ((issue env input db).0 ≡ ok (issued env input))
        × (find env.new_id (issue env input db).1.rows ≡ some (issued env input))
        × ((issued env input).state ≡ sent)
        × ((issued env input).sent_at ≡ some env.now)
        × ((issue env input db).1.outbox
            ≡ db.outbox
              ++ command_issued env.new_id
                  (normalize input).asset_id
                  (normalize input).mission_id
                  (normalize input).type
                  (normalize input).actor
                ∷ [])
  unfolding issue create inserted moved transition_row update_where same_state
  issue_ok stamps =
      let new = inserted env.now (draft env (normalize input)) in
      let stored = find_after_put env.new_id new db.rows in
      let restored =
        find_after_put env.new_id (moved env.now sent "" new) (put env.new_id new db.rows) in
      ground (arith, stored, restored)

  -- `Issue` is not atomic: if the query that stamps the command fails, the caller gets the error and
  -- nothing is published, and yet the command stays in the table, SENT, with no time of sending.
  pub issue_half_done :
      {e : DbError}
      → env.fault transition_command ≡ some e
      → ((issue env input db).0 ≡ err (raw e))
        × ((issue env input db).1.outbox ≡ db.outbox)
        × (find env.new_id (issue env input db).1.rows
            ≡ some (inserted env.now (draft env (normalize input))))
  unfolding issue create inserted transition_row same_state
  issue_half_done {e} fails =
      let new = inserted env.now (draft env (normalize input)) in
      ground (arith, find_after_put env.new_id new db.rows)
