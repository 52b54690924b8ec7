-- ===== src/Repository/Create.antt =====
-- create_job: the row of a new job, with the defaults of the columns that the code leaves out.
use infra_ops.Prelude.{ℕ, false, String, [], Option, none, some}
use infra_ops.Prelude.Json.{Json}
use infra_ops.Jobs.{
  Job, JobStatus, InfrastructureStatus, GuestOsStatus, VmwareToolsStatus, GuestProvisioningStatus,
}

pub record NewJob : Type 0 where
  pub id : ℕ
  pub vm_name : String
  pub datacenter_id : String
  pub requested_by_user_id : Option ℕ
  pub idempotency_key : Option String
  pub request_payload : Json
  pub request_fingerprint : Option String
  pub reserved_ipv4 : Option String

unfoldable pub new_job : ℕ → NewJob → Job
new_job now n = record {
  id = n.id;
  status = JobStatus.queued;
  vm_name = n.vm_name;
  datacenter_id = some n.datacenter_id;
  datacenter_name = none;
  requested_by_user_id = n.requested_by_user_id;
  current_stage = none;
  progress = 0;
  infrastructure_status = InfrastructureStatus.pending;
  guest_os_status = GuestOsStatus.unknown;
  vmware_tools_status = VmwareToolsStatus.unknown;
  guest_provisioning_status = GuestProvisioningStatus.pending;
  error_summary = none;
  error_detail = none;
  cancel_requested = false;
  queued_at = now;
  started_at = none;
  finished_at = none;
  duration_seconds = none;
  idempotency_key = n.idempotency_key;
  request_fingerprint = n.request_fingerprint;
  reserved_ipv4 = n.reserved_ipv4;
  worker_id = none;
  heartbeat_at = none;
  steps = [];
  payload = some n.request_payload;
}
