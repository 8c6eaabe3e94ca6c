-- ===== src/Observability.antt =====
-- etl/observability: correlation ids, JSON log lines and trace spans.
pub mod Correlation
pub mod Logging
pub mod Tracing
