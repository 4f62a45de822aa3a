-- ===== src/Examples/Incidents.antt =====
-- The theorems on internal/incidents at concrete inputs.
use c4isr_systems.Prelude.{◌≡◌, ◌≢◌, refl, Option, none, some, [], ◌∷◌}
use c4isr_systems.Platform.Apperr.{ok}
use c4isr_systems.Platform.Table.{find, put, DbError}
use c4isr_systems.Incidents.{
  opened, acknowledged, closed, Incident, track, RelationIds, CreateInput, UpdateInput,
  normalize_update, validate_update, valid_priority,
}
use c4isr_systems.Incidents.Store.{Env, Query, Tables}
use c4isr_systems.Incidents.Service.{Db, open_incident, change_status, edit}
use c4isr_systems.Incidents.Opening.{Opening, open_incident-Opening}
use c4isr_systems.Incidents.Moves.{Change, change_status-Change, edit_overwrites}
use c4isr_systems.Incidents.Stamps.{
  AllStamped, opens, changes, edits, attaches, apply_all, apply_all-AllStamped,
}

abbrev no_fault : Query → Option DbError
no_fault q = none

abbrev calm : Env
calm = record {
  now = 70;
  new_id = "inc-1";
  fault = no_fault;
  link_fault = λ k i. none;
  point_fault = λ i. none;
  others = λ t. t;
}

abbrev evidence : RelationIds
evidence = record {
  alert_ids = "a-1" ∷ " a-2 " ∷ [];
  track_ids = "t-1" ∷ [];
  asset_ids = [];
  observation_ids = [];
  assessment_ids = [];
}

abbrev report : CreateInput
report = record {
  title = "Breach at the harbour";
  description = "";
  priority = "";
  relations = evidence;
  actor = "op-1";
}

abbrev incident : Incident
incident = record {
  id = "inc-1";
  title = "Breach";
  description = "";
  priority = "high";
  status = opened;
  assigned_operator = "op-1";
  created_at = 60;
  updated_at = 60;
  resolved_at = none;
  closed_at = none;
}

abbrev retitled_incident : Incident
retitled_incident = record incident { title = "Breach, confirmed" }

abbrev tables : Tables
tables = record {
  incidents = ("inc-1", incident) ∷ [];
  links = [];
  alert_incident = ("a-1", "") ∷ ("a-2", "") ∷ [];
}

abbrev holding : Db
holding = record { tables = tables; outbox = [] }

abbrev retitling : Tables → Tables
retitling t = record t { incidents = put "inc-1" retitled_incident t.incidents }

open_incident-Opening_example :
    Opening
      (record calm { new_id = "inc-2" })
      report
      holding
      (open_incident (record calm { new_id = "inc-2" }) report holding)
open_incident-Opening_example =
    open_incident-Opening (record calm { new_id = "inc-2" }) report holding

change_status-Change_example :
    Change calm "inc-1" acknowledged "op-1" holding
      (change_status calm "inc-1" acknowledged "op-1" holding)
change_status-Change_example = change_status-Change calm "inc-1" acknowledged "op-1" holding

abbrev raise_priority : UpdateInput
raise_priority = record {
  title = "";
  description = "";
  priority = "critical";
  assigned_operator = "";
}

edit_overwrites_example :
    (i : Incident) × ((edit
        (record calm { others = retitling })
        "inc-1"
        raise_priority
        "op-1"
        holding).0
      ≡ ok i)
    × (i.title ≡ "Breach")
    × (i.title ≢ "Breach, confirmed")
    × (i.status ≡ opened)
    × (find "inc-1"
          (edit
            (record calm { others = retitling })
            "inc-1"
            raise_priority
            "op-1"
            holding).1.tables.incidents
        ≡ some i)
unfolding find put normalize_update validate_update valid_priority
edit_overwrites_example =
    edit_overwrites (record calm { others = retitling }) "inc-1" "op-1" raise_priority holding
      {seen = incident} {now_there = retitled_incident} refl refl refl refl refl refl refl (λ e. cc)

abbrev untouched : (t : Tables) → AllStamped t → AllStamped t
untouched t h = h

apply_all-AllStamped_example :
    AllStamped
      (apply_all
        ((calm, attaches track "inc-1" "t-1" "op-1")
          ∷ (calm, edits "inc-1" raise_priority "op-1")
          ∷ (calm, changes "inc-1" closed "op-1")
          ∷ (record calm { new_id = "inc-2" }, opens report)
          ∷ [])
        holding).tables
apply_all-AllStamped_example =
    apply_all-AllStamped
      ((calm, attaches track "inc-1" "t-1" "op-1")
        ∷ (calm, edits "inc-1" raise_priority "op-1")
        ∷ (calm, changes "inc-1" closed "op-1")
        ∷ (record calm { new_id = "inc-2" }, opens report)
        ∷ [])
      holding (untouched, (untouched, (untouched, (untouched, tt))))
      (record { closing = λ e. cc; resolution = λ e. cc }, tt)
