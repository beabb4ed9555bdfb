-- ===== src/Auth/Jwt.antt =====
-- agent/src/auth/jwt.rs: verification of ES256 tokens in JWS compact serialization.
pub mod Types
pub mod Claims
pub mod Compact
pub mod Verify
pub mod Tests
