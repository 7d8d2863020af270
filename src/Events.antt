-- ===== src/Events.antt =====
-- internal/events
pub mod Analyzer
pub mod Service
pub mod Aggregated
