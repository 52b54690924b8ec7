-- ===== src/Jobs/Rows.antt =====
-- The rows of backend/app/models/jobs.py. Identifiers and clock readings are numbers; a duration is
-- the signed difference of two readings.
use infra_ops.Prelude.{ℕ, Bool, String, List, Option}
use infra_ops.Prelude.Int.{ℤ}
use infra_ops.Prelude.Json.{Json}
use infra_ops.Jobs.Status.{
  JobStatus, StepStatus, InfrastructureStatus, GuestOsStatus, VmwareToolsStatus,
  GuestProvisioningStatus,
}

abbrev pub Artifacts : Type 0
Artifacts = List (String × Json)

-- ProvisioningJobStep
pub record Step : Type 0 where
  pub stage_key : String
  pub name : String
  pub sequence : ℕ
  pub status : StepStatus
  pub attempt : ℕ
  pub max_attempts : ℕ
  pub retryable : Bool
  pub started_at : Option ℕ
  pub finished_at : Option ℕ
  pub output : Option String
  pub error_human : Option String
  pub error_technical : Option String
  pub artifacts : Artifacts

-- ProvisioningJob, with the relationships `steps` and `request`
pub record Job : Type 0 where
  pub id : ℕ
  pub status : JobStatus
  pub vm_name : String
  pub datacenter_id : Option String
  pub datacenter_name : Option String
  pub requested_by_user_id : Option ℕ
  pub current_stage : Option String
  pub progress : ℕ
  pub infrastructure_status : InfrastructureStatus
  pub guest_os_status : GuestOsStatus
  pub vmware_tools_status : VmwareToolsStatus
  pub guest_provisioning_status : GuestProvisioningStatus
  pub error_summary : Option String
  pub error_detail : Option String
  pub cancel_requested : Bool
  pub queued_at : ℕ
  pub started_at : Option ℕ
  pub finished_at : Option ℕ
  pub duration_seconds : Option ℤ
  pub idempotency_key : Option String
  pub request_fingerprint : Option String
  pub reserved_ipv4 : Option String
  pub worker_id : Option String
  pub heartbeat_at : Option ℕ
  pub steps : List Step
  pub payload : Option Json
