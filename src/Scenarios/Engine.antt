-- ===== src/Scenarios/Engine.antt =====
-- internal/scenarios/engine.go: the state of one run and the operations on it, each under the lock.
-- Virtual time is in whole milliseconds; the value of `virtualTimeMs(currentVirtualLocked())`, which
-- the source computes from the wall clock in floating point, is an argument.
pub mod Queue
pub mod Capacity
pub mod Schedule
pub mod Run
use c4isr_systems.Prelude.{
  ℕ, String, suc, ◌+◌, ◌-◌, ◌<◌, Bool, true, false, ◌&&◌, ◌||◌, not, Option, none, some, List, [],
  ◌∷◌, ◌++◌, ltb, leb, ◌==◌, if◌then◌else◌, ℤ, pos, negsuc, pos_part, neg_part, ltb_ℤ, max_int64,
  length, get_elem?, head?, is_empty,
}
use c4isr_systems.Platform.Apperr.{Error, conflict_error, validation_error, text}
use c4isr_systems.Scenarios.Timeline.{Action, action_before, sort}

pub data EventStatus : Type 0 where
  pending running completed failed skipped : EventStatus

pub record EventInspection : Type 0 where
  pub sequence : ℕ
  pub at_ms : ℕ
  pub name : String
  pub status : EventStatus
  pub error : String

-- `maxScheduledActions`
abbrev pub max_scheduled_actions : ℕ
max_scheduled_actions = 20000

pub record Engine : Type 0 where
  pub paused : Bool
  pub stopped : Bool
  pub finished : Bool
  pub virtual_base_ms : ℕ
  pub static : List Action
  pub next_static : ℕ
  pub pending : List Action
  pub reserved : ℕ
  pub next_seq : ℕ
  pub last_action : String
  pub last_action_at : ℕ
  pub action_error : String
  pub events_run : ℕ
  pub event_states : List EventInspection

-- A dynamic action, as `scheduleAfterMany` is given it.
pub record DynamicAction : Type 0 where
  pub delay_ms : ℤ
  pub name : String

-- `e.eventStates[item.sequence] = item`: a map, kept as a list in the order of insertion.
unfoldable pub set_event : EventInspection → List EventInspection → List EventInspection
set_event item [] = item ∷ []
set_event item (x ∷ xs) = if x.sequence == item.sequence then item ∷ xs else x ∷ set_event item xs

-- `if item, ok := e.eventStates[seq]; ok { ... }`: an update of an event that is there.
unfoldable pub update_event :
    ℕ → (EventInspection → EventInspection) → List EventInspection → List EventInspection
update_event seq f [] = []
update_event seq f (x ∷ xs) = if x.sequence == seq then f x ∷ xs else x ∷ update_event seq f xs

-- The candidate of `peekNext`: the earlier of the two heads, the static one on a tie.
abbrev pub earlier : Option Action → Option Action → Option Action
earlier none none = none
earlier (some s) none = some s
earlier none (some p) = some p
earlier (some s) (some p) = if action_before p s then some p else some s

abbrev pub candidate : Engine → Option Action
candidate e = earlier (get_elem? e.static e.next_static) (head? e.pending)

-- `peekNext`
unfoldable pub peek_next : Engine → Option Action × Engine
peek_next e = elim (candidate e) [
  | none ↦ (none, record e { finished = true })
  | some a ↦ (some a, e)
]

abbrev pub has_seq : ℕ → Option Action → Bool
has_seq seq none = false
has_seq seq (some a) = a.seq == seq

abbrev pub pop_pending : ℕ → List Action → Engine → Option Action × Engine
pop_pending seq [] e = (none, e)
pop_pending seq (p ∷ ps) e = if p.seq == seq then (some p, record e { pending = ps }) else (none, e)

-- `popNext`
unfoldable pub pop_next : ℕ → Engine → Option Action × Engine
pop_next seq e =
    if has_seq seq (get_elem? e.static e.next_static)
    then (get_elem? e.static e.next_static, record e { next_static = suc e.next_static })
    else pop_pending seq e.pending e

-- The loop that numbers and dates the new actions: they are dated from `base`, and the numbers go on
-- from `next_seq`. With none, a time passes the greatest int64; the counter is advanced all the same.
unfoldable pub reserve_actions : ℕ → ℕ → List DynamicAction → ℕ × Option (List Action)
reserve_actions base seq [] = (seq, some [])
reserve_actions base seq (d ∷ ds) =
    let rest = reserve_actions base (suc seq) ds in
    if ltb_ℤ (pos 0) d.delay_ms && ltb (max_int64 - pos_part d.delay_ms) base
    then (suc seq, none)
    else (
      rest.0,
      elim rest.1 [
        | none ↦ none
        | some actions ↦
            some (
              record { at_ms = base + pos_part d.delay_ms; seq = suc seq; name = d.name } ∷ actions)
      ],
    )

-- `item.DelayMs < 0` for some item.
unfoldable pub any_negative : List DynamicAction → Bool
any_negative [] = false
any_negative (d ∷ ds) = ltb_ℤ d.delay_ms (pos 0) || any_negative ds

-- What the first locked section of `scheduleAfterMany` ends with.
pub data Reservation : Type 0 where
  -- an early return
  refused : Option Error → Reservation
  -- the new actions; their number stays reserved until the second locked section
  granted : List Action → Reservation

abbrev pub date : ℕ → ℕ → Engine → ℕ × Option (List Action) → Reservation × Engine
date count base e (seq, none) = (
  refused (some (validation_error (text "dynamic action time is too large"))),
  record e { next_seq = seq },
)
date count base e (seq, some actions) =
    (granted actions, record e { next_seq = seq; reserved = e.reserved + count })

-- The first locked section. `from_action` says that the call comes from an action of this run, which
-- dates the new ones from that action's virtual time; otherwise they are dated from `current`.
unfoldable pub reserve : Bool → ℕ → List DynamicAction → Engine → Reservation × Engine
reserve from_action current [] e = (refused none, e)
reserve from_action current (d ∷ ds) e =
    if e.stopped || e.finished
    then (refused (some (conflict_error (text "scenario run is no longer accepting actions"))), e)
    else if any_negative (d ∷ ds)
    then (refused (some (validation_error (text "dynamic action delay must not be negative"))), e)
    else if ltb max_scheduled_actions (length e.event_states + e.reserved + length (d ∷ ds))
    then (refused (some (conflict_error (text "scenario action capacity exhausted"))), e)
    else (let base = if from_action then e.last_action_at else current in
        date (length (d ∷ ds)) base e (reserve_actions base e.next_seq (d ∷ ds)))

-- The inspection of a new action.
abbrev pub inspection : EventStatus → String → Action → EventInspection
inspection status error a = record {
  sequence = a.seq;
  at_ms = a.at_ms;
  name = a.name;
  status = status;
  error = error;
}

unfoldable pub set_events :
    (Action → EventInspection) → List Action → List EventInspection → List EventInspection
set_events f [] events = events
set_events f (a ∷ actions) events = set_events f actions (set_event (f a) events)

-- The locked section after a failed CreateEvent: the reservation is given back, and the events are
-- recorded as skipped.
unfoldable pub abandon : String → List Action → Engine → Engine
abandon message actions e = record e {
  reserved = e.reserved - length actions;
  event_states = set_events (inspection skipped message) actions e.event_states;
}

-- The second locked section, once the events are persisted.
unfoldable pub commit : List Action → Engine → Option Error × Engine
commit actions e =
    if e.stopped || e.finished
    then (
      some (conflict_error (text "scenario run is no longer accepting actions")),
      abandon "scenario run stopped before dynamic action was scheduled" actions e,
    )
    else (
      none,
      record e {
        reserved = e.reserved - length actions;
        pending = sort (e.pending ++ actions);
        event_states = set_events (inspection pending "") actions e.event_states;
      },
    )

-- `skipPending`, its locked section.
abbrev pub skip_one : String → EventInspection → EventInspection
skip_one message x = elim x.status [
  | pending ↦ record x { status = skipped; error = if is_empty message then x.error else message }
  | running ↦ record x { status = skipped; error = if is_empty message then x.error else message }
  | _ ↦ x
]

unfoldable pub skip_all : String → List EventInspection → List EventInspection
skip_all message [] = []
skip_all message (x ∷ xs) = skip_one message x ∷ skip_all message xs

unfoldable pub skip_pending : String → Engine → Engine
skip_pending message e = record e { event_states = skip_all message e.event_states }

-- `markFinished`
unfoldable pub mark_finished : Engine → Engine
mark_finished e = record e { finished = true }

-- `Pause`, at the virtual time `current`.
unfoldable pub pause : ℕ → Engine → Engine
pause current e =
    if not e.paused && (not e.stopped && not e.finished)
    then record e { virtual_base_ms = current; paused = true }
    else e

-- `Resume`; the wall clock from which virtual time goes on is outside the model.
unfoldable pub resume : Engine → Engine
resume e = if e.paused && (not e.stopped && not e.finished) then record e { paused = false } else e

-- `SetSpeed` of a positive finite number, at the virtual time `current`; the speed and the wall clock
-- are outside the model.
unfoldable pub set_speed : ℕ → Engine → Engine
set_speed current e =
    if not e.paused && (not e.stopped && not e.finished)
    then record e { virtual_base_ms = current }
    else e

-- `Stop`
unfoldable pub stop : Engine → Engine
stop e = record e { stopped = true }

-- The start of an action in `run`.
unfoldable pub begin_action : Action → Engine → Engine
begin_action a e = record e {
  virtual_base_ms = a.at_ms;
  last_action = a.name;
  last_action_at = a.at_ms;
  action_error = "";
  event_states = update_event a.seq (λ x. record x { status = running }) e.event_states;
}

-- The end of an action that failed with this text.
unfoldable pub fail_action : String → Action → Engine → Engine
fail_action message a e = record e {
  action_error = message;
  event_states =
      update_event a.seq (λ x. record x { status = failed; error = message }) e.event_states;
}

unfoldable pub clear_error : Engine → Engine
clear_error e = record e { action_error = "" }

abbrev pub complete_running : EventInspection → EventInspection
complete_running x = elim x.status [ running ↦ record x { status = completed } | _ ↦ x ]

-- The bookkeeping after every action.
unfoldable pub settle_action : Action → Engine → Engine
settle_action a e = record e {
  event_states = update_event a.seq complete_running e.event_states;
  events_run = suc e.events_run;
}
