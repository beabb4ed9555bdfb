-- ===== src/Auth.antt =====
-- agent/src/auth: who may call the agent.
pub mod Rejection
pub mod Jwt
pub mod Bearer
pub mod Jwks
pub mod Access
pub mod Configure
pub mod Tests
