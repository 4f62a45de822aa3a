-- ===== src/Platform.antt =====
-- The shared platform packages: internal/platform.
pub mod Geo
pub mod Access
pub mod Metrics
pub mod Apperr
pub mod Table
pub mod Freshness
