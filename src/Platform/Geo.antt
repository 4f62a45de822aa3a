-- ===== src/Platform/Geo.antt =====
-- internal/platform/geo/geo.go: coordinates. The trigonometry is not modelled; those who use it take
-- it as a parameter.
use c4isr_systems.Prelude.{ℕ, ◌%◌, Bool, ◌&&◌, leb, int64_half}

-- A float64 by its bit pattern.
abbrev pub Float64 : Type 0
Float64 = ℕ

pub record Point : Type 0 where
  pub lat : Float64
  pub lng : Float64

-- The absolute value; over the non-negative patterns the order of floats is that of numbers, with
-- the infinity and then the NaNs at the end.
abbrev magnitude : Float64 → ℕ
magnitude x = x % int64_half

-- `Point.Valid`: the patterns are those of 90 and 180.
unfoldable pub valid_point : Point → Bool
valid_point p = leb (magnitude p.lat) 0x4056800000000000 && leb (magnitude p.lng) 0x4066800000000000

-- What is not the repository's code: the instant that a timestamptz column keeps of a time, the
-- speed over a distance in so many nanoseconds (`geo.DistanceMeters(a, b) / seconds`), and
-- `geo.BearingDegrees`.
pub record Outside : Type 0 where
  pub column_time : ℕ → ℕ
  pub speed_between : Point → Point → ℕ → Float64
  pub bearing : Point → Point → Float64
