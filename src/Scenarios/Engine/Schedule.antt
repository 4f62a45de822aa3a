-- ===== src/Scenarios/Engine/Schedule.antt =====
-- internal/scenarios/engine.go: a whole call of scheduleAfterMany, which holds the lock in two sections
-- and writes its events to the repository in between.
use c4isr_systems.Prelude.{ℕ, String, Bool, Option, none, some, List}
use c4isr_systems.Platform.Apperr.{Error}
use c4isr_systems.Scenarios.Engine.{
  Engine, DynamicAction, Reservation, refused, granted, reserve, abandon, commit,
}

-- What a call meets while it does not hold the lock: what other threads do to the engine, the error of
-- the first CreateEvent that fails, and the message that is made of such an error.
pub record Unlocked : Type 0 where
  pub others : Engine → Engine
  pub create_fault : Option Error
  pub message_of : Error → String

-- After the first section: the call returns, or its events are written, and the lock is taken again to
-- give the reservation back or to add the actions.
abbrev pub conclude : Unlocked → Reservation × Engine → Option Error × Engine
conclude w (refused why, e) = (why, e)
conclude w (granted actions, e) = elim w.create_fault [
  | some x ↦ (some x, abandon (w.message_of x) actions (w.others e))
  | none ↦ commit actions (w.others e)
]

-- `scheduleAfterMany`
unfoldable pub schedule : Bool → ℕ → Unlocked → List DynamicAction → Engine → Option Error × Engine
schedule from_action current w ds e = conclude w (reserve from_action current ds e)
