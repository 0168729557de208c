-- ===== src/Issuer.antt =====
-- The crate `kif-issuer`: it serves the public keys, from a file and then from the JWKS secret.
pub mod Jwks
pub mod Serve
pub mod Config
pub mod Discovery
pub mod Router
pub mod Main
