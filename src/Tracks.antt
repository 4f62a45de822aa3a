-- ===== src/Tracks.antt =====
-- internal/tracks/domain.go: tracks, the operational interpretation of observations. An instant is a
-- number of nanoseconds.
pub mod Store
pub mod Writes
pub mod Correlation
pub mod Service
pub mod Walk
pub mod Growth
pub mod Steps
pub mod Evidence
pub mod Atomic
pub mod Ownership
pub mod Turning
pub mod Redelivery
use c4isr_systems.Prelude.{ℕ, String, Bool, Option}
use c4isr_systems.Platform.Geo.{Float64, Point}
use c4isr_systems.Alerts.{Scope}

pub data Status : Type 0 where
  active lost closed : Status

-- The metadata that the service writes; what a run of a scenario adds is its scope and the hint.
pub record Metadata : Type 0 where
  pub source_id : String
  pub initial_observation_id : String
  pub scenario : Option (Scope × String)

-- A track without the extras of the read model. An external reference that is NULL is the empty
-- text. In a row of the table tracks the position, the speed and the heading are none; they are in
-- track_state.
pub record Track : Type 0 where
  pub id : String
  pub external_ref : String
  pub status : Status
  pub first_seen_at : ℕ
  pub last_seen_at : ℕ
  pub position : Option Point
  pub speed : Option Float64
  pub heading : Option Float64
  pub metadata : Metadata
  pub created_at : ℕ
  pub updated_at : ℕ
  pub closed_at : Option ℕ

pub record HistoryPoint : Type 0 where
  pub id : String
  pub track_id : String
  pub observed_at : ℕ
  pub position : Option Point
  pub speed : Option Float64
  pub heading : Option Float64

pub record StateUpdate : Type 0 where
  pub track_id : String
  pub position : Option Point
  pub speed : Option Float64
  pub heading : Option Float64

pub record ObservationUpdate : Type 0 where
  pub observation_id : String
  pub source_id : String
  pub observed_at : ℕ
  pub position : Option Point
  pub track_hint : String
  pub duplicate : Bool
