-- ===== src/Observability.antt =====
-- libs/observability/src: correlation ids and metrics.
pub mod Correlation
pub mod Metrics
