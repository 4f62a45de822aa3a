-- ===== src/Examples.antt =====
-- The theorems at concrete inputs.
mod Commands
mod Incidents
mod Alerts
mod Scenarios
mod Platform
mod Telemetry
mod Tracks
mod Access
mod Missions
