-- ===== src/Api.antt =====
-- The crate `kif-api`: the custom resources that the services exchange, and the namespace file.
pub mod Bindings
pub mod Status
pub mod Shared
