-- ===== src/Witnesses/Data.antt =====
-- The sample job, request and environment of the tests.
use infra_ops.Prelude.{ℕ, Bool, true, false, String, List, [], ◌∷◌, none, some}
use infra_ops.Prelude.Json.{str}
use infra_ops.Jobs.{
  Job, JobStatus, Step, StepStatus, InfrastructureStatus, GuestOsStatus, VmwareToolsStatus,
  GuestProvisioningStatus, Artifacts,
}
use infra_ops.Pipeline.Context.{Context, Effect, Environment, HandlerEnd, returned}

abbrev pub step_with : String → StepStatus → Artifacts → Step
step_with key status artifacts = record {
  stage_key = key;
  name = key;
  sequence = 0;
  status = status;
  attempt = 0;
  max_attempts = 3;
  retryable = true;
  started_at = none;
  finished_at = none;
  output = none;
  error_human = none;
  error_technical = none;
  artifacts = artifacts;
}

abbrev pub step_at : String → StepStatus → Step
step_at key status = step_with key status []

abbrev pub job_with : ℕ → String → JobStatus → List Step → Job
job_with id vm_name status steps = record {
  id = id;
  status = status;
  vm_name = vm_name;
  datacenter_id = some "dc-1";
  datacenter_name = none;
  requested_by_user_id = some 7;
  current_stage = none;
  progress = 0;
  infrastructure_status = InfrastructureStatus.pending;
  guest_os_status = GuestOsStatus.unknown;
  vmware_tools_status = VmwareToolsStatus.unknown;
  guest_provisioning_status = GuestProvisioningStatus.pending;
  error_summary = none;
  error_detail = none;
  cancel_requested = false;
  queued_at = 100;
  started_at = some 110;
  finished_at = none;
  duration_seconds = none;
  idempotency_key = none;
  request_fingerprint = none;
  reserved_ipv4 = some "10.0.0.5";
  worker_id = some "worker-1";
  heartbeat_at = some 115;
  steps = steps;
  payload = none;
}

abbrev pub context_of : Job → Context
context_of job = record {
  job = job;
  vm_name = job.vm_name;
  request_datacenter_id = "dc-1";
  actor_username = some "engineer";
  vm_ref = some (str "vm-42");
  reboot_required = false;
  hostname_changed = false;
  escaped = none;
  audit = [];
  notifications = [];
  events = [];
}

-- A handler that writes nothing but the lifecycle states and ends as given.
abbrev pub handler_ending : HandlerEnd → Context → Effect × HandlerEnd
handler_ending ending ctx = (
  record {
    artifacts = λ key artifacts. artifacts;
    live_output = some "Installing.";
    vm_ref = none;
    datacenter_id = ctx.job.datacenter_id;
    datacenter_name = ctx.job.datacenter_name;
    infrastructure_status = InfrastructureStatus.ready;
    guest_os_status = ctx.job.guest_os_status;
    vmware_tools_status = ctx.job.vmware_tools_status;
    guest_provisioning_status = ctx.job.guest_provisioning_status;
    reboot_required = false;
    hostname_changed = false;
    audit = [];
    events = [];
  },
  ending,
)

abbrev pub ran_well : HandlerEnd
ran_well = returned (record { status = "SUCCEEDED"; output = "done"; artifacts = [] })

abbrev pub environment_of : HandlerEnd → Bool → Environment
environment_of ending cancelled = record {
  handler = λ key. some (handler_ending ending);
  overrides = some [];
  cancel_seen = λ key. cancelled;
  stage_started = λ key. 120;
  stage_finished = λ key. 130;
  run_finished = 140;
  remove_media = λ vm path. true;
  screenshot = λ vm. some "screens/vm-42.png";
}

-- A job with media attached, in the middle of the installation.
abbrev pub installing_steps : List Step
installing_steps =
    step_at "validate_request" StepStatus.succeeded
    ∷ step_at "create_vm" StepStatus.succeeded
    ∷ step_with "prepare_unattended_install" StepStatus.succeeded
        (("datastore_path", str "[ds1] answer.iso") ∷ [])
    ∷ step_at "wait_for_guest_os" StepStatus.pending
    ∷ []

abbrev pub installing : Context
installing = context_of (job_with 1 "WEB-01" JobStatus.running installing_steps)
