-- ===== src/Repository.antt =====
-- backend/app/repositories/jobs.py, over the rows of the job table.
pub mod Progress
pub mod Table
pub mod Create
pub mod Queue
pub mod Retry
pub mod Steps
pub mod Unique
pub mod Claims
