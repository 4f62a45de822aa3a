-- ===== src/Scenarios/Timeline.antt =====
-- The scheduled actions of a run and their order (internal/scenarios/engine.go: scheduledAction,
-- actionBefore, addMilliseconds, max64 and the stable sorts). Times are virtual milliseconds, int64
-- values that are never negative.
pub mod Order
use c4isr_systems.Prelude.{
  ℕ, String, ◌+◌, Bool, true, false, Option, none, some, List, [], ◌∷◌, ltb, ◌==◌, if◌then◌else◌, ℤ,
  pos, pos_part, ltb_ℤ, max_int64, not,
}

-- What the action runs is known by its sequence number.
pub record Action : Type 0 where
  pub at_ms : ℕ
  pub seq : ℕ
  pub name : String

-- `actionBefore`: by time, then by sequence number.
abbrev pub action_before : Action → Action → Bool
action_before left right =
    if not (left.at_ms == right.at_ms) then ltb left.at_ms right.at_ms else ltb left.seq right.seq

-- `addMilliseconds`: none where an operand is negative or the sum passes the greatest int64.
unfoldable pub add_milliseconds : ℤ → ℤ → Option ℕ
add_milliseconds base delta =
    if ltb_ℤ base (pos 0)
    then none
    else if ltb_ℤ delta (pos 0)
    then none
    else if ltb max_int64 (pos_part base + pos_part delta)
    then none
    else some (pos_part base + pos_part delta)

-- `sort.SliceStable` by `actionBefore`.
unfoldable pub insert : Action → List Action → List Action
insert a [] = a ∷ []
insert a (b ∷ bs) = if action_before b a then b ∷ insert a bs else a ∷ b ∷ bs

unfoldable pub sort : List Action → List Action
unfolding insert
sort [] = []
sort (a ∷ rest) = insert a (sort rest)
