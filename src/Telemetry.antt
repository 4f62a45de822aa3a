-- ===== src/Telemetry.antt =====
-- internal/telemetry/domain.go: samples of telemetry and the state that they project.
-- An instant is a number of nanoseconds and 0 is Go's zero time.
pub mod Store
pub mod Service
pub mod Seen
pub mod Growth
pub mod Insert
pub mod Projection
pub mod Turns
pub mod Attempts
pub mod Latest
pub mod Delivery
pub mod Retry
pub mod Monitor
pub mod Keys
pub mod Shown
pub mod Silence
use c4isr_systems.Prelude.{
  ℕ, String, Bool, false, ◌+◌, not, Option, none, some, ◌&&◌, ◌||◌, ltb, ◌==◌, str_eq, trim_space,
  is_empty, if◌then◌else◌,
}
use c4isr_systems.Platform.Apperr.{Error, validation_error, text}
use c4isr_systems.Platform.Geo.{Float64, Point, valid_point}

-- A text column that is NULL is the empty text; the payload is its JSON document.
pub record Sample : Type 0 where
  pub id : String
  pub message_id : String
  pub asset_id : String
  pub source_id : String
  pub observed_at : ℕ
  pub received_at : ℕ
  pub position : Option Point
  pub speed : Option Float64
  pub heading : Option Float64
  pub health : String
  pub connection_state : String
  pub payload : String
  pub created_at : ℕ

pub record CreateInput : Type 0 where
  pub id : String
  pub message_id : String
  pub asset_id : String
  pub source_id : String
  pub observed_at : ℕ
  pub received_at : ℕ
  pub position : Option Point
  pub speed : Option Float64
  pub heading : Option Float64
  pub health : String
  pub connection_state : String
  pub payload : Option String

-- `Normalize`, with the id that `ids.New` gives and the time of `time.Now`.
unfoldable pub normalize : String → ℕ → CreateInput → CreateInput
unfolding trim_space
normalize new_id clock i = record i {
  id = if is_empty (trim_space i.id) then new_id else trim_space i.id;
  message_id = trim_space i.message_id;
  asset_id = trim_space i.asset_id;
  source_id = trim_space i.source_id;
  health = trim_space i.health;
  connection_state = trim_space i.connection_state;
  received_at = if i.received_at == 0 then clock else i.received_at;
  payload = elim i.payload [ none ↦ some "{}" | some p ↦ some p ];
}

-- `validConnectionState`
unfoldable pub valid_connection_state : String → Bool
valid_connection_state s =
    str_eq s "connected" || str_eq s "degraded" || str_eq s "disconnected" || str_eq s "unknown"

-- `maxClockSkew`: five minutes.
abbrev pub max_clock_skew : ℕ
max_clock_skew = 300000000000

abbrev pub off_the_map : Option Point → Bool
off_the_map none = false
off_the_map (some p) = not (valid_point p)

-- `Validate`
unfoldable pub validate : ℕ → CreateInput → Option Error
unfolding valid_point valid_connection_state
validate now i =
    if is_empty i.asset_id
    then some (validation_error (text "assetId is required"))
    else if i.observed_at == 0
    then some (validation_error (text "observedAt is required"))
    else if ltb (now + max_clock_skew) i.observed_at
    then some (validation_error (text "observedAt is too far in the future"))
    else if off_the_map i.position
    then some (validation_error (text "position must be a valid WGS84 coordinate"))
    else if not (is_empty i.connection_state) && not (valid_connection_state i.connection_state)
    then some (
        validation_error
          (text "connectionState must be one of connected, degraded, disconnected, unknown"))
    else none

pub record StateSnapshot : Type 0 where
  pub asset_id : String
  pub position : Option Point
  pub connection_state : String
  pub last_seen_at : Option ℕ

pub record StateUpdate : Type 0 where
  pub asset_id : String
  pub position : Option Point
  pub speed : Option Float64
  pub heading : Option Float64
  pub health : String
  pub connection_state : String
  pub observed_at : ℕ
