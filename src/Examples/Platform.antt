-- ===== src/Examples/Platform.antt =====
-- The theorems on internal/platform at concrete inputs.
use c4isr_systems.Prelude.{◌*◌, some, arith, pos}
use c4isr_systems.Platform.Freshness.{Policy, normalized, AssetSignal, TrackSignal, minute}
use c4isr_systems.Platform.Freshness.Thresholds.{
  IsModerate, IsOrdered, normalized-IsOrdered, normalized_tiny, normalized_huge,
}

-- Only the stale threshold is configured, to two minutes.
abbrev two_minutes : Policy
two_minutes = record {
  delayed_after = pos 0;
  stale_after = pos (2 * minute);
  unavailable_after = pos 0;
}

two_minutes-IsModerate : IsModerate two_minutes
two_minutes-IsModerate = λ h. (omega arith, omega arith)

normalized-IsOrdered_example : IsOrdered (normalized two_minutes)
normalized-IsOrdered_example = normalized-IsOrdered two_minutes two_minutes-IsModerate

abbrev tiny : Policy
tiny = record { delayed_after = pos 0; stale_after = pos 3; unavailable_after = pos 0 }

normalized_tiny_example : ¬ IsOrdered (normalized tiny)
normalized_tiny_example = normalized_tiny tiny (ground arith) (ground arith) (ground arith)

abbrev huge : Policy
huge = record {
  delayed_after = pos 0;
  stale_after = pos 1600000000000000000;
  unavailable_after = pos 0;
}

normalized_huge_example : ¬ IsOrdered (normalized huge)
normalized_huge_example = normalized_huge huge (ground arith) (ground arith) (ground arith)

abbrev asset : AssetSignal
asset = record { last_seen_at = some (10 * minute); connection_state = "connected"; status = "" }

abbrev track : TrackSignal
track = record { last_seen_at = 10 * minute; status = "" }
