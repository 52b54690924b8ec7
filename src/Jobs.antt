-- ===== src/Jobs.antt =====
-- backend/app/models/jobs.py: the statuses of a job and of its steps, and the rows of the tables
-- provisioning_jobs, provisioning_job_steps and vm_provisioning_requests.
mod Status
mod Rows
pub mod Steps
pub use Status.*
pub use Rows.*
pub use Steps.*
unfoldable pub use Steps.{find_step, update_step}
