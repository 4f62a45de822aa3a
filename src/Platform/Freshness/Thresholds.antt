-- ===== src/Platform/Freshness/Thresholds.antt =====
-- The thresholds of a normalized policy (freshness.go, `Policy.Normalized`).
use c4isr_systems.Prelude.{◌≤◌, ◌≡◌, arith, pos, pos_part, ◌<ℤ◌, ◌≤ℤ◌}
use c4isr_systems.Platform.Freshness.{Policy, normalized}

-- The stale threshold is unset, or between 4 ns and a sixth of the greatest int64.
abbrev pub IsModerate : Policy → Type 0
IsModerate p =
    (pos 0 <ℤ p.stale_after
      → (4 ≤ pos_part p.stale_after) × (pos_part p.stale_after ≤ 1537228672809129301))

abbrev pub IsOrdered : Policy → Type 0
IsOrdered p =
    (pos 0 <ℤ p.delayed_after)
    × (p.delayed_after <ℤ p.stale_after)
    × (p.stale_after <ℤ p.unavailable_after)

-- If the stale threshold is unset, or at least 4 ns and at most a sixth of the greatest int64, the
-- normalized thresholds are positive and strictly increasing.
pub normalized-IsOrdered : (p : Policy) → IsModerate p → IsOrdered (normalized p)
unfolding normalized
normalized-IsOrdered p h = ground arith

-- Under the same condition normalizing twice is normalizing once.
pub normalized_idem : (p : Policy) → IsModerate p → normalized (normalized p) ≡ normalized p
unfolding normalized
normalized_idem p h = ground arith

-- A configured stale threshold below 4 ns, with the delayed threshold unset, breaks the order that
-- `Normalized` promises: the quarter rounds to 0 and is repaired to a second.
pub normalized_tiny :
    (p : Policy)
    → pos 0 <ℤ p.stale_after
    → p.stale_after <ℤ pos 4
    → p.delayed_after ≤ℤ pos 0
    → ¬ IsOrdered (normalized p)
unfolding normalized
normalized_tiny p h k d o = ground arith

-- The order breaks too for a stale threshold above a sixth and at most a third of the greatest int64,
-- with the unavailable threshold unset: six times it wraps to a negative duration.
pub normalized_huge :
    (p : Policy)
    → pos 1537228672809129301 <ℤ p.stale_after
    → p.stale_after <ℤ pos 3074457345618258603
    → p.unavailable_after ≤ℤ pos 0
    → ¬ IsOrdered (normalized p)
unfolding normalized
normalized_huge p h k d o = ground arith
