-- ===== src/Jobs.antt =====
-- internal/application/jobs and internal/platform/database/jobruns: scheduled jobs.
pub mod Runs
pub mod Batch
mod Tests
