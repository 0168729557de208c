-- ===== src/Federation.antt =====
-- The crate `kif-federation`: it authenticates ServiceAccount tokens, mints the cloud tokens and
-- keeps the signing key.
pub mod Subject
pub mod Claims
pub mod Keys
pub mod Mint
pub mod Config
pub mod Router
pub mod Main
