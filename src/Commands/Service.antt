-- ===== src/Commands/Service.antt =====
-- internal/commands/service.go: issuing a command and moving it through its lifecycle.
use c4isr_systems.Prelude.{
  String, Bool, true, false, none, some, List, [], ◌∷◌, ◌++◌, trim_space, is_empty, if◌then◌else◌,
}
use c4isr_systems.Platform.Apperr.{Result, ok, err, validation_error, text, labelled}
use c4isr_systems.Platform.Table.{Table}
use c4isr_systems.Commands.{
  State, sent, acknowledged, completed, rejected, failed, timed_out, cancelled, Command, IssueInput,
  normalize, validate, can_transition, valid_state, invalid_transition,
}
use c4isr_systems.Commands.Store.{Env, get, create, transition_row}

-- The events that the service publishes (internal/events/events.go).
pub data Event : Type 0 where
  command_issued : (command_id asset_id mission_id type actor : String) → Event
  command_status_changed :
      (command_id asset_id : String) (state : State) (failure_reason actor : String) → Event

-- The commands table, and the events published so far, the latest last.
pub record Db : Type 0 where
  pub rows : Table Command
  pub outbox : List Event

abbrev pub publish : Event → Db → Db
publish e db = record db { outbox = db.outbox ++ e ∷ [] }

-- The command that `Issue` hands to the repository.
abbrev pub draft : Env → IssueInput → Command
draft env i = record {
  id = env.new_id;
  asset_id = i.asset_id;
  mission_id = i.mission_id;
  incident_id = i.incident_id;
  type = i.type;
  payload = elim i.payload [ none ↦ "{}" | some p ↦ p ];
  state = sent;
  created_by = i.actor;
  correlation_id = i.correlation_id;
  created_at = 0;
  updated_at = 0;
  queued_at = none;
  sent_at = none;
  acknowledged_at = none;
  completed_at = none;
  failure_reason = "";
}

abbrev pub announce_issued : String → Db → Result Command × Table Command → Result Command × Db
announce_issued actor db (err e, t) = (err e, record db { rows = t })
announce_issued actor db (ok c, t) = (
  ok c,
  publish (command_issued c.id c.asset_id c.mission_id c.type actor) (record db { rows = t }),
)

abbrev pub issue_known : Env → IssueInput → Db → Result Bool → Result Command × Db
issue_known env i db (err e) = (err e, db)
issue_known env i db (ok false) =
    (err (validation_error (labelled "unknown asset: " i.asset_id)), db)
issue_known env i db (ok true) = announce_issued i.actor db (create env (draft env i) db.rows)

-- `Issue`
unfoldable pub issue : Env → IssueInput → Db → Result Command × Db
issue env raw_input db =
    let i = normalize raw_input in
    elim (validate i) [
      | some e ↦ (err e, db)
      | none ↦ issue_known env i db (env.asset_exists i.asset_id)
    ]

abbrev pub announce_moved :
    State → String → String → Db → Result Command × Table Command → Result Command × Db
announce_moved to reason actor db (err e, t) = (err e, record db { rows = t })
announce_moved to reason actor db (ok c, t) = (
  ok c,
  publish (command_status_changed c.id c.asset_id to reason actor) (record db { rows = t }),
)

-- The second half of `Transition`, with the command that was read; others may have written since.
abbrev pub move_from :
    Env → String → State → String → String → Db → Result Command → Result Command × Db
move_from env id to reason actor db (err e) = (err e, db)
move_from env id to reason actor db (ok current) =
    if can_transition current.state to
    then announce_moved to reason actor db
        (transition_row env id current.state to reason (env.others db.rows))
    else (err (invalid_transition current.state to), db)

-- `Transition`
unfoldable pub transition : Env → String → State → String → String → Db → Result Command × Db
transition env id to reason actor db =
    if valid_state to then move_from env id to reason actor db (get env id db.rows) else (
      err (
          validation_error (
            text
              "command state must be one of CREATED, QUEUED, SENT, ACKNOWLEDGED, COMPLETED, REJECTED, FAILED, TIMED_OUT, CANCELLED")),
      db,
    )

-- `reasonOr`
unfoldable pub reason_or : String → String → String
unfolding trim_space
reason_or reason fallback = if is_empty (trim_space reason) then fallback else reason

unfoldable pub acknowledge : Env → String → String → Db → Result Command × Db
acknowledge env id actor = transition env id acknowledged "" actor

unfoldable pub complete : Env → String → String → Db → Result Command × Db
complete env id actor = transition env id completed "" actor

unfoldable pub reject : Env → String → String → String → Db → Result Command × Db
reject env id reason actor = transition env id rejected (reason_or reason "rejected by asset") actor

unfoldable pub fail : Env → String → String → String → Db → Result Command × Db
fail env id reason actor =
    transition env id failed (reason_or reason "command execution failed") actor

unfoldable pub timeout : Env → String → String → String → Db → Result Command × Db
timeout env id reason actor =
    transition env id timed_out (reason_or reason "command timed out") actor

unfoldable pub cancel : Env → String → String → Db → Result Command × Db
cancel env id actor = transition env id cancelled "" actor
