-- ===== src/Tests.antt =====
-- The theorems at concrete inputs.
pub mod Data
pub mod Jobs
pub mod Worker
pub mod Events
pub mod Trials
pub mod Review
pub mod Provider
pub mod Smoke
