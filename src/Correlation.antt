-- ===== src/Correlation.antt =====
-- internal/correlation
pub mod Classify
pub mod Dedup
pub mod Build
pub mod Rank
pub mod Confidence
pub mod Ranking
pub mod Counts
pub mod Distinct
pub mod Coverage
