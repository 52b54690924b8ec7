-- ===== src/Pipeline.antt =====
-- backend/app/workers/pipeline.py, with release_unattended_media and effective_timeout_seconds of
-- backend/app/workers/stages.py.
pub mod Context
pub mod Timeout
pub mod Media
pub mod Stage
pub mod Run
pub mod Frame
pub mod StepProgress
pub mod Kept
pub mod Outcome
pub mod Release
pub mod Failed
pub mod Completion
pub mod Cancellation
pub mod Stopped
pub mod Identity
