-- ===== src/Engine.antt =====
-- agent/src/engine.rs: the execution of jobs.
pub mod Retry
pub mod Log
pub mod Download
pub mod Upload
pub mod Progress
pub mod Notify
pub mod Command
pub mod Request
pub mod Execute
pub mod Life
pub mod Wire
pub mod Stall
pub mod Workdir
pub mod Tests
