-- ===== src/Jobs/Batch.antt =====
-- internal/application/jobs/batch.go: the loops over the candidates of a job.
pub mod Defs
pub mod Runners
pub mod Notices
pub mod Recipients
pub mod Counts
pub mod Statements
pub mod Compensation
