-- ===== src/Webhook.antt =====
-- The crate `kif-webhook`: it merges CloudRoleBindings, admits pods and injects the agent.
pub mod Admission
pub mod Config
pub mod Http
pub mod Merge
pub mod Mutate
pub mod Queue
pub mod Reconcile
pub mod Watch
pub mod Router
pub mod Main
