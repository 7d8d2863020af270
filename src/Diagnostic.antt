-- ===== src/Diagnostic.antt =====
-- internal/diagnostic
pub mod Scheduler
pub mod Admission
pub mod Eligible
pub mod Eligibility
pub mod Dependencies
pub mod Pod
pub mod Bounded
pub mod Cache
pub mod Assemble
pub mod Coherent
