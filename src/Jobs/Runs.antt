-- ===== src/Jobs/Runs.antt =====
-- The table of job runs and the service that claims a window in it before it runs a job.
pub mod Store
pub mod Trigger
pub mod Claims
pub mod Execute
pub mod Later
