-- ===== src/Action.antt =====
-- internal/action
pub mod Store
pub mod Cluster
pub mod Requests
pub mod Guards
pub mod Engine
pub mod Restart
pub mod Scale
pub mod DeletePod
pub mod Cordon
pub mod Rules
