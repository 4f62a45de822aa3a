-- ===== src/Scenarios.antt =====
-- internal/scenarios: the deterministic scenario runner.
pub mod Timeline
pub mod Engine
