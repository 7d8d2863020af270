-- ===== src/Graph.antt =====
-- internal/graph
pub mod Core
pub mod Owners
pub mod Selectors
pub mod PodLinks
pub mod Dependencies
pub mod Builders
pub mod Built
pub mod BuiltLoops
pub mod WellFormed
pub mod Results
pub mod Revisions
