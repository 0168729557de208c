-- ===== src/Agent.antt =====
-- The crate `kif-agent`: the sidecar that asks for a token, writes it to a file and renews it.
pub mod Config
pub mod Client
pub mod Files
pub mod Refresh
pub mod Router
pub mod Main
