-- ===== src/Model.antt =====
-- agent/src/model.rs: jobs, their endpoints, and what the agent accepts of them.
pub mod Types
pub mod Endpoint
pub mod Job
pub mod Tests
