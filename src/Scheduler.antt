-- ===== src/Scheduler.antt =====
-- apps/controller/src/scheduler/index.ts: which Agent, if any, a job goes to.
pub mod Request
pub mod Version
pub mod Matching
pub mod Diagnostic
pub mod CacheKeys
pub mod Score
pub mod Fallback
pub mod Select
mod Scenarios
