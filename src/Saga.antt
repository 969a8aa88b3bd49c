-- ===== src/Saga.antt =====
-- saga/: a list of stages, each a group of steps, that completes or is rolled back.
pub mod Steps
pub mod Engine
pub mod Courses
pub mod Rollback
pub mod Outcomes
pub mod Retries
