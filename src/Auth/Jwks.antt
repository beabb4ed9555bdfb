-- ===== src/Auth/Jwks.antt =====
-- agent/src/auth/jwks.rs: the verification keys.
pub mod Types
pub mod Parse
pub mod Store
pub mod Tests
