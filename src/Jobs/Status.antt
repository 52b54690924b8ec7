-- ===== src/Jobs/Status.antt =====
-- The enumerations of backend/app/models/jobs.py and the tests that the code makes on them.
use infra_ops.Prelude.{Bool, true, false}

pub data JobStatus : Type 0 where
  queued running completed partially_completed failed cancelled interrupted : JobStatus

pub data StepStatus : Type 0 where
  pending running succeeded failed skipped warning not_applicable cancelled : StepStatus

pub data InfrastructureStatus : Type 0 where
  pending creating ready failed : InfrastructureStatus

pub data GuestOsStatus : Type 0 where
  unknown not_present installation_required installation_in_progress ready error : GuestOsStatus

pub data VmwareToolsStatus : Type 0 where
  unknown not_applicable_yet not_installed installing running not_running outdated error :
      VmwareToolsStatus

pub data GuestProvisioningStatus : Type 0 where
  pending waiting_for_os waiting_for_tools in_progress completed not_requested failed :
      GuestProvisioningStatus

-- TERMINAL_JOB_STATUSES
abbrev pub is_terminal : JobStatus → Bool
is_terminal JobStatus.completed = true
is_terminal JobStatus.partially_completed = true
is_terminal JobStatus.failed = true
is_terminal JobStatus.cancelled = true
is_terminal _ = false

-- ACTIVE_JOB_STATUSES, and IP_RESERVING_JOB_STATUSES which is the same tuple
abbrev pub is_active : JobStatus → Bool
is_active JobStatus.queued = true
is_active JobStatus.running = true
is_active JobStatus.interrupted = true
is_active _ = false

abbrev pub is_queued : JobStatus → Bool
is_queued JobStatus.queued = true
is_queued _ = false

abbrev pub is_running : JobStatus → Bool
is_running JobStatus.running = true
is_running _ = false

abbrev pub is_interrupted : JobStatus → Bool
is_interrupted JobStatus.interrupted = true
is_interrupted _ = false

-- `step.status in (SUCCEEDED, SKIPPED, WARNING, NOT_APPLICABLE)`: the stages a resumed run skips.
abbrev pub is_done : StepStatus → Bool
is_done StepStatus.succeeded = true
is_done StepStatus.skipped = true
is_done StepStatus.warning = true
is_done StepStatus.not_applicable = true
is_done _ = false

-- `step.status in (PENDING, RUNNING)`
abbrev pub is_open : StepStatus → Bool
is_open StepStatus.pending = true
is_open StepStatus.running = true
is_open _ = false

-- `step.status in (SUCCEEDED, SKIPPED)`
abbrev pub is_succeeded_or_skipped : StepStatus → Bool
is_succeeded_or_skipped StepStatus.succeeded = true
is_succeeded_or_skipped StepStatus.skipped = true
is_succeeded_or_skipped _ = false

abbrev pub is_succeeded : StepStatus → Bool
is_succeeded StepStatus.succeeded = true
is_succeeded _ = false

abbrev pub is_step_running : StepStatus → Bool
is_step_running StepStatus.running = true
is_step_running _ = false

abbrev pub is_step_failed : StepStatus → Bool
is_step_failed StepStatus.failed = true
is_step_failed _ = false
