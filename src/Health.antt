-- ===== src/Health.antt =====
-- The health indicators of libs/*/src and the health controllers of apps/*/src/health.
pub mod Indicators
pub mod Controllers
pub mod Readiness
