-- ===== src/Examples/Commands.antt =====
-- The theorems on internal/commands at concrete inputs.
use c4isr_systems.Prelude.{◌≡◌, refl, true, Option, none, some, [], ◌∷◌}
use c4isr_systems.Platform.Apperr.{ok, err}
use c4isr_systems.Platform.Table.{Table, find, put, DbError, raw}
use c4isr_systems.Commands.{
  State, Command, IssueInput, sent, acknowledged, cancelled, normalize, validate,
}
use c4isr_systems.Commands.Store.{Env, Query, transition_command, inserted}
use c4isr_systems.Commands.Service.{Db, draft, issue, transition}
use c4isr_systems.Commands.Safety.{Outcome, transition_outcome}
use c4isr_systems.Commands.History.{
  issues, acknowledges, completes, run-Evolves, Evolves, Evolves-refl, run,
}
use c4isr_systems.Commands.Issue.{issue_half_done}

abbrev order : IssueInput
order = record {
  asset_id = " drone-7 ";
  mission_id = "";
  incident_id = "";
  type = "RETURN";
  payload = none;
  actor = "op-1";
  correlation_id = "";
}

abbrev no_fault : Query → Option DbError
no_fault q = none

abbrev calm : Env
calm = record {
  now = 70;
  new_id = "cmd-1";
  asset_exists = λ a. ok true;
  fault = no_fault;
  others = λ t. t;
}

abbrev no_stamp : Query → Option DbError
no_stamp transition_command = some (DbError.failed "connection reset")
no_stamp _ = none

abbrev faulty : Env
faulty = record calm { fault = no_stamp }

abbrev command_in : State → Command
command_in s = record (draft calm (normalize order)) { id = "cmd-1"; state = s }

abbrev empty : Db
empty = record { rows = []; outbox = [] }

abbrev holding : State → Db
holding s = record { rows = ("cmd-1", command_in s) ∷ []; outbox = [] }

-- Another writer cancels the command between the read and the write.
abbrev cancelling : Table Command → Table Command
cancelling t = put "cmd-1" (command_in cancelled) t

transition_outcome_example :
    Outcome calm "cmd-1" acknowledged "" "op-1"
      (holding sent)
      (transition calm "cmd-1" acknowledged "" "op-1" (holding sent))
transition_outcome_example = transition_outcome calm "cmd-1" acknowledged "" "op-1" (holding sent)

untouched : (t : Table Command) → Evolves t t
untouched t = Evolves-refl t

run-Evolves_example :
    Evolves
      (holding sent).rows
      (run
        ((calm, acknowledges "cmd-1" "op-1")
          ∷ (record calm { new_id = "cmd-2" }, issues order)
          ∷ (faulty, completes "cmd-1" "op-1")
          ∷ [])
        (holding sent)).rows
run-Evolves_example =
    run-Evolves
      ((calm, acknowledges "cmd-1" "op-1")
        ∷ (record calm { new_id = "cmd-2" }, issues order)
        ∷ (faulty, completes "cmd-1" "op-1")
        ∷ [])
      (holding sent) (untouched, (untouched, (untouched, tt)))

order_valid : validate (normalize order) ≡ none
unfolding validate normalize
order_valid = refl

issue_half_done_example :
    ((issue faulty order empty).0 ≡ err (raw (DbError.failed "connection reset")))
    × ((issue faulty order empty).1.outbox ≡ [])
    × (find "cmd-1" (issue faulty order empty).1.rows
        ≡ some (inserted 70 (draft faulty (normalize order))))
unfolding find
issue_half_done_example = issue_half_done faulty order empty order_valid refl refl refl refl
