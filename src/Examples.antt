-- ===== src/Examples.antt =====
-- Concrete inputs, and the theorems at them.
mod Cluster
mod Actions
mod Settings
mod Tokens
mod Progress
mod Diagnoses
mod Inventory
mod Graphs
mod Resolving
mod Diagnosing
mod Happenings
