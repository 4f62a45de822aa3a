-- ===== src/Examples/Scenarios.antt =====
-- The theorems on internal/scenarios at concrete inputs.
use c4isr_systems.Prelude.{
  ℕ, String, ◌≡◌, ◌≢◌, ◌≤◌, refl, true, false, none, some, [], ◌∷◌, arith, pos, length,
}
use c4isr_systems.Platform.Apperr.{plain, conflict_error, text}
use c4isr_systems.Scenarios.Timeline.{Action}
use c4isr_systems.Scenarios.Engine.{
  Engine, EventInspection, pending, DynamicAction, refused, reserve, reserve_actions, any_negative,
  commit, abandon, resume, stop, max_scheduled_actions,
}
use c4isr_systems.Scenarios.Engine.Queue.{IsQueue}
use c4isr_systems.Scenarios.Engine.Capacity.{
  Shared, Step, reserves, commits, here, next, claimed, events_bounded,
}
use c4isr_systems.Scenarios.Engine.Run.{Round, Texts, out_of_fuel, run}
use c4isr_systems.Scenarios.Engine.Run.Termination.{IsFair, run_ends}
use c4isr_systems.Scenarios.Engine.Schedule.{Unlocked, schedule}
use c4isr_systems.Scenarios.Engine.Run.Polite.{IsPolite, stop-IsPolite, resume-IsPolite}
use c4isr_systems.Scenarios.Engine.Run.Fair.{schedule-IsPolite}
use c4isr_systems.Scenarios.Engine.Run.Ending.{IsSettled, run_settles, reserve_after_run}

abbrev at : ℕ → ℕ → String → Action
at ms seq name = record { at_ms = ms; seq = seq; name = name }

abbrev waiting_event : Action → EventInspection
waiting_event a = record {
  sequence = a.seq;
  at_ms = a.at_ms;
  name = a.name;
  status = pending;
  error = "";
}

abbrev launch : Action
launch = at 0 1 "launch"

abbrev patrol : Action
patrol = at 500 2 "patrol"

abbrev report : Action
report = at 200 3 "report"

-- Two static actions, and a dynamic one that is due between them.
abbrev start : Engine
start = record {
  paused = false;
  stopped = false;
  finished = false;
  virtual_base_ms = 0;
  static = launch ∷ patrol ∷ [];
  next_static = 0;
  pending = report ∷ [];
  reserved = 0;
  next_seq = 3;
  last_action = "";
  last_action_at = 0;
  action_error = "";
  events_run = 0;
  event_states = waiting_event launch ∷ waiting_event patrol ∷ waiting_event report ∷ [];
}

abbrev midway : Engine
midway = record start { next_static = 1 }

start-IsQueue : IsQueue 2 start
start-IsQueue = record {
  static_sorted = ((refl, tt), (tt, tt));
  pending_sorted = (tt, tt);
  static_low = (omega arith, (omega arith, tt));
  pending_high = (omega arith, tt);
  parted = omega arith;
  numbered = (omega arith, (omega arith, (omega arith, tt)));
}

midway-IsQueue : IsQueue 2 midway
midway-IsQueue = record {
  static_sorted = (tt, tt);
  pending_sorted = (tt, tt);
  static_low = (omega arith, tt);
  pending_high = (omega arith, tt);
  parted = omega arith;
  numbered = (omega arith, (omega arith, (omega arith, tt)));
}

abbrev recon : DynamicAction
recon = record { delay_ms = pos 50; name = "recon" }

abbrev alone : Unlocked
alone = record { others = λ e. e; create_fault = none; message_of = λ x. "could not persist" }

abbrev during_call : (Engine → Engine) → Unlocked
during_call f = record alone { others = f }

abbrev busy_round : Round
busy_round = record {
  waited = true;
  cancelled = none;
  meanwhile = resume;
  during = λ e. (schedule true 0 (during_call resume) (recon ∷ []) e).1;
  result = none;
  start_fault = none;
  end_fault = none;
  cursor_fault = none;
}

abbrev rounds : ℕ → Round
rounds n = busy_round

abbrev texts : Texts
texts = record { of_error = λ e. "" }

-- Another call of scheduleAfterMany between the two sections of this one.
recon_twice :
    (schedule true 0
      (during_call (λ e. (schedule true 0 alone (recon ∷ []) e).1))
      (recon ∷ [])
      start).1.next_seq
    ≡ 5
unfolding schedule reserve reserve_actions any_negative commit abandon
recon_twice = refl

-- The run is stopped while the event is written.
recon_too_late :
    (schedule true 0 (during_call stop) (recon ∷ []) start).0
    ≡ some (conflict_error (text "scenario run is no longer accepting actions"))
unfolding schedule reserve reserve_actions any_negative commit abandon stop
recon_too_late = refl

recon_unwritten :
    (schedule true 0
      (record alone { create_fault = some (plain "connection lost") })
      (recon ∷ [])
      start).0
    ≡ some (plain "connection lost")
unfolding schedule reserve reserve_actions any_negative commit abandon
recon_unwritten = refl

schedule-IsPolite_example : IsPolite 2 (λ e. (schedule true 0 (during_call stop) (recon ∷ []) e).1)
schedule-IsPolite_example =
    schedule-IsPolite 2 true 0 (during_call stop) (recon ∷ []) (stop-IsPolite 2)

-- The rounds of the example: a resumption while the loop waits, and a call during the action between
-- whose sections the run is resumed.
rounds-IsFairRound : (n : ℕ) → IsFair 2 resume × IsFair 2 (rounds n).during
rounds-IsFairRound n = (
  (resume-IsPolite 2).fair,
  (schedule-IsPolite 2 true 0 (during_call resume) (recon ∷ []) (resume-IsPolite 2)).fair,
)

busy_ends : (run 40001 texts rounds start).0 ≢ out_of_fuel
busy_ends =
    run_ends 2 texts rounds start rounds-IsFairRound start-IsQueue (omega arith) (omega arith)

run_ends_example : (run 40001 texts rounds start).0 ≢ out_of_fuel
run_ends_example =
    run_ends 2 texts rounds start rounds-IsFairRound start-IsQueue (omega arith) (omega arith)

run_settles_example : IsSettled (run 40001 texts rounds start).1
run_settles_example =
    run_settles 2 texts rounds start rounds-IsFairRound start-IsQueue (omega arith) (omega arith)

reserve_after_run_example : reserve true 0 (recon ∷ []) (run 40001 texts rounds start).1 ≡ (
  refused (some (conflict_error (text "scenario run is no longer accepting actions"))),
  (run 40001 texts rounds start).1,
)
reserve_after_run_example = reserve_after_run 40001 texts rounds start true 0 recon [] busy_ends

abbrev idle : Shared
idle = record { engine = start; outstanding = [] }

abbrev recon_action : Action
recon_action = at 50 4 "recon"

abbrev reserved_state : Shared
reserved_state = record {
  engine = record start { reserved = 1; next_seq = 4 };
  outstanding = (recon_action ∷ []) ∷ [];
}

reserved-Step : Step idle reserved_state
unfolding reserve reserve_actions any_negative
reserved-Step = reserves true 0 (recon ∷ []) (recon_action ∷ []) refl

abbrev committed_state : Shared
committed_state = record {
  engine = (commit (recon_action ∷ []) reserved_state.engine).1;
  outstanding = [];
}

committed-Step : Step reserved_state committed_state
committed-Step = commits [] [] (recon_action ∷ []) refl

events_bounded_example :
    (length committed_state.engine.event_states ≤ max_scheduled_actions)
    × (committed_state.engine.reserved ≡ claimed [])
events_bounded_example =
    events_bounded {s = idle} {t = committed_state} refl refl (omega arith)
      (next (next here reserved-Step) committed-Step)
