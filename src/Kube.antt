-- ===== src/Kube.antt =====
-- internal/kube, and the parts of the Kubernetes API types that the program reads
pub mod Types
pub mod Spec
pub mod Kind
pub mod Errors
pub mod Resolver
