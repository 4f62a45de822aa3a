-- ===== src/Scenarios/Engine/Run.antt =====
-- internal/scenarios/engine.go: the loop of `run`. What an action does, the waiting, the other
-- threads and the repository enter as an account of each round.
pub mod Termination
pub mod Ending
pub mod Numbers
pub mod Polite
pub mod Fair
use c4isr_systems.Prelude.{
  ℕ, zero, suc, String, Bool, true, false, not, ◌&&◌, Option, none, some, if◌then◌else◌,
}
use c4isr_systems.Platform.Apperr.{Error, is_code, internal}
use c4isr_systems.Scenarios.Timeline.{Action}
use c4isr_systems.Scenarios.Engine.{
  Engine, peek_next, pop_next, begin_action, fail_action, clear_error, settle_action, mark_finished,
  skip_pending,
}

-- What a round of the loop meets.
pub record Round : Type 0 where
  -- the result of `waitUntil`, and `ctx.Err()` where the context is done
  pub waited : Bool
  pub cancelled : Option Error
  -- what other threads do while the loop waits, and during the action the action itself and others
  pub meanwhile : Engine → Engine
  pub during : Engine → Engine
  -- the result of the action
  pub result : Option Error
  -- the writes to the repository: persistEvent before and after the action, and persistCursor
  pub start_fault : Option Error
  pub end_fault : Option Error
  pub cursor_fault : Option Error

-- The text of an error, and the fixed reason of a stop.
pub record Texts : Type 0 where
  pub of_error : Error → String

pub data Outcome : Type 0 where
  -- the timeline is exhausted, or the run was stopped: `return nil`
  returned : Outcome
  -- `return err`
  broke : Error → Outcome
  out_of_fuel : Outcome

-- markFinished, skipPending, and the error that is returned.
abbrev pub abort : Texts → Error → Engine → Outcome × Engine
abort txt e g = (broke e, skip_pending (txt.of_error e) (mark_finished g))

-- waitUntil has answered false.
abbrev pub interrupted : Texts → Option Error → Engine → Outcome × Engine
interrupted txt none g = (returned, skip_pending "scenario run stopped" (mark_finished g))
interrupted txt (some e) g =
    if g.stopped
    then (returned, skip_pending "scenario run stopped" (mark_finished g))
    else (broke e, skip_pending (txt.of_error e) (mark_finished g))

-- What a round ends with: a result of the loop, or the engine of the next round.
pub data Turn : Type 0 where
  ends : Outcome × Engine → Turn
  goes_on : Engine → Turn

-- persistCursor, and the end of the run after an internal error of the action.
abbrev pub close_round : Texts → Round → Option Error → Engine → Turn
close_round txt r fatal g = elim r.cursor_fault [
  | some e ↦ ends (abort txt e g)
  | none ↦ elim fatal [ some e ↦ ends (abort txt e g) | none ↦ goes_on g ]
]

-- The action failed: the failure is persisted; only an internal error ends the run.
abbrev pub after_failure : Texts → Round → Error → Action → Engine → Turn
after_failure txt r e a g =
    let failed = fail_action (txt.of_error e) a g in
    elim r.end_fault [
      | some f ↦ ends (abort txt f failed)
      | none ↦
          close_round txt r (if is_code e internal then some e else none) (settle_action a failed)
    ]

-- The action succeeded.
abbrev pub after_success : Texts → Round → Action → Engine → Turn
after_success txt r a g =
    let settled = settle_action a (clear_error g) in
    elim r.end_fault [ some f ↦ ends (abort txt f settled) | none ↦ close_round txt r none settled ]

abbrev pub perform : Texts → Round → Action → Engine → Turn
perform txt r a g = elim r.start_fault [
  | some e ↦ ends (abort txt e (begin_action a g))
  | none ↦ elim r.result [
    | some e ↦ after_failure txt r e a (r.during (begin_action a g))
    | none ↦ after_success txt r a (r.during (begin_action a g))
  ]
]

abbrev pub take_turn : Texts → Round → Option Action × Engine → Turn
take_turn txt r (none, g) = goes_on g
take_turn txt r (some a, g) = perform txt r a g

-- One round, from the action that `peekNext` has picked.
abbrev pub visit : Texts → Round → Option Action × Engine → Turn
visit txt r (none, g) = ends (returned, g)
visit txt r (some a, g) =
    if r.waited
    then take_turn txt r (pop_next a.seq (r.meanwhile g))
    else ends (interrupted txt r.cancelled (r.meanwhile g))

unfoldable pub turn : Texts → Round → Engine → Turn
turn txt r g = visit txt r (peek_next g)

-- The loop, with fuel; the rounds are numbered by what is left of it.
unfoldable pub run : ℕ → Texts → (ℕ → Round) → Engine → Outcome × Engine
run zero txt rounds g = (out_of_fuel, g)
run (suc fuel) txt rounds g = elim (turn txt (rounds fuel) g) [
  | ends r ↦ r
  | goes_on g' ↦ run fuel txt rounds g'
]
